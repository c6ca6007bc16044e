-- ===== src/Banks/Registry.antt =====
-- internal/adapters/banks/registry.go: the clients by bank code. A map is a list in which a code
-- stands once; the mutex makes each operation atomic.
use payments_hub.Base.{List, [], ◌∷◌, if◌then◌else◌}
use payments_hub.Base.Bytes.{Bytes, codes, same}
use payments_hub.Base.Result.{Result, ok, err, unknown_bank}
use payments_hub.Banks.Pix.{PaymentGateway}

abbrev pub Registry : Type 0
Registry = List (Bytes × PaymentGateway)

-- `NewRegistry`
abbrev pub new_registry : Registry
new_registry = []

-- `Register`
unfoldable pub register : Bytes → PaymentGateway → Registry → Registry
register code g [] = (code, g) ∷ []
register code g ((k, h) ∷ r) = if same k code then (code, g) ∷ r else (k, h) ∷ register code g r

-- `Lookup`
unfoldable pub lookup : Bytes → Registry → Result PaymentGateway
lookup code [] = err unknown_bank
lookup code ((k, h) ∷ r) = if same k code then ok h else lookup code r

-- `List`
unfoldable pub list_codes : Registry → List Bytes
list_codes [] = []
list_codes ((k, _) ∷ r) = k ∷ list_codes r

-- `SupportedBankCodes`
abbrev pub supported_bank_codes : List Bytes
supported_bank_codes =
    codes "341"
    ∷ codes "237"
    ∷ codes "033"
    ∷ codes "001"
    ∷ codes "104"
    ∷ codes "077"
    ∷ codes "756"
    ∷ codes "208"
    ∷ []
