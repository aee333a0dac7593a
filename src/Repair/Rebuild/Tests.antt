-- ===== src/Repair/Rebuild/Tests.antt =====
-- Changes of a small document, and the theorems on them.
use mathlib.Core.Option
use payment_ops.Prelude.{◌≡◌, refl, none, some, [], ◌∷◌, codes, text_eq}
use payment_ops.Unicode.{split_on, add_char}
use payment_ops.Unicode.Ascii.{ascii}
use payment_ops.Xml.{before_first, after_first}
use payment_ops.Xml.Places.{Place, walk}
use payment_ops.Xml.Samples.{document}
use payment_ops.Repair.{DiffEntry, ChangeStatus, address_provider, segments, drop_empty}
use payment_ops.Repair.Rebuild.{index_of, navigate_from, position, postal_address_order}
use payment_ops.Repair.Rebuild.Navigate.{Spells, done, step, navigate_from-walk}
use payment_ops.Repair.Rebuild.Changed.{LeafPath}

abbrev steps : Place
steps =
    (codes "FIToFICstmrCdtTrf", 0)
    ∷ (codes "CdtTrfTxInf", 0)
    ∷ (codes "Cdtr", 0)
    ∷ (codes "PstlAdr", 0)
    ∷ []

spelled :
    Spells ascii
      (codes "FIToFICstmrCdtTrf" ∷ codes "CdtTrfTxInf[0]" ∷ codes "Cdtr" ∷ codes "PstlAdr" ∷ [])
      steps
unfolding before_first index_of after_first payment_ops.Repair.Rebuild.rstrip_char
    payment_ops.Unicode.parse_int payment_ops.Unicode.parse_signed payment_ops.Unicode.parse_digits
    payment_ops.Unicode.digit payment_ops.Unicode.strip payment_ops.Unicode.lstrip
    payment_ops.Unicode.is_space
spelled = step refl refl (step refl refl (step refl refl (step refl refl done)))

navigate_from-walk_example :
    navigate_from ascii document
      (codes "FIToFICstmrCdtTrf" ∷ codes "CdtTrfTxInf[0]" ∷ codes "Cdtr" ∷ codes "PstlAdr" ∷ [])
    ≡ some (Option.map (λ m. steps) (walk steps document))
navigate_from-walk_example = navigate_from-walk ascii spelled document

-- The country that is missing.
abbrev change : DiffEntry
change = record {
  path = codes "/Document/FIToFICstmrCdtTrf/CdtTrfTxInf[0]/Cdtr/PstlAdr/Ctry";
  before = none;
  after = some (codes "DE");
  source = address_provider;
  status = ChangeStatus.proposed;
}

leaf : LeafPath ascii change.path
unfolding segments drop_empty split_on add_char before_first index_of after_first position text_eq
leaf = record {
  head = codes "Document";
  middle = codes "FIToFICstmrCdtTrf" ∷ codes "CdtTrfTxInf[0]" ∷ codes "Cdtr" ∷ codes "PstlAdr" ∷ [];
  leaf = codes "Ctry";
  parent = steps;
  path_segments = refl;
  spelled = spelled;
  leaf_name = step refl refl done;
  leaf_plain = refl;
  leaf_known = refl;
}
