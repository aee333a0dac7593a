-- ===== src/Xml/Samples.antt =====
-- A small customer credit transfer, whose creditor has a town and no country.
use payment_ops.Prelude.{none, some, [], ◌∷◌, codes}
use payment_ops.Xml.{Node, element}

abbrev pub address : Node
address = element (codes "PstlAdr") none (element (codes "TwnNm") (some (codes "Berlin")) [] ∷ [])

abbrev pub payment : Node
payment = element (codes "CdtTrfTxInf") none (element (codes "Cdtr") none (address ∷ []) ∷ [])

abbrev pub document : Node
document =
    element (codes "{urn:iso:std:iso:20022:tech:xsd:pacs.008.001.08}Document") none
      (element (codes "FIToFICstmrCdtTrf") none (payment ∷ []) ∷ [])

-- A status report of a group with an accepted transaction.
abbrev pub report : Node
report = element (codes "{urn:iso:std:iso:20022:tech:xsd:pacs.002.001.16}Document") none (
    element (codes "FIToFIPmtStsRpt") none (
      element (codes "OrgnlGrpInfAndSts") none
        (element (codes "GrpSts") (some (codes "RJCT")) [] ∷ [])
      ∷ element (codes "TxInfAndSts") none (
          element (codes "TxSts") (some (codes "ACCP")) []
          ∷ element (codes "OrgnlTxRef") none (
              element (codes "Amt") none (element (codes "InstdAmt") (some (codes "1.00")) [] ∷ [])
              ∷ [])
          ∷ [])
      ∷ [])
    ∷ [])
