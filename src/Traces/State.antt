-- ===== src/Traces/State.antt =====
-- The data of lib/blockchain-traces: a trace as the blockchain's database gives it, the row that
-- is made of it, and the errors of trace-processors/processor-errors.js. The JSON of an action is
-- an association list, and a key that is missing is undefined. Amounts of tokens are integers, in
-- ten-thousandths of a token. The column tr_executed_at and the copy raw_tr_data are left out.
use text.Mathlib.Text.{◌==◌ as str_eq}
use mathlib.Core.Path.{◌≡◌, refl}
use ucom_backend.Prelude.{
  ℕ, suc, String, Bool, true, false, Option, none, some, List, [], ◌∷◌, if◌then◌else◌,
}
use ucom_backend.Prelude.Int.{ℤ}

pub data Value : Type 0 where
  str : String → Value
  num : ℕ → Value
  strs : List String → Value

abbrev pub Fields : Type 0
Fields = List (String × Value)

abbrev pub field {ℓ} : {A : Type ℓ} → String → List (String × A) → Option A
field k [] = none
field k ((j, v) ∷ fs) = if str_eq j k then some v else field k fs

-- An inline trace: `act.name` and `act_data`.
pub record InlineTrace : Type 0 where
  pub name : String
  pub act_data : Fields

pub record Act : Type 0 where
  pub name : String
  pub act_data : Fields
  pub inline_traces : List InlineTrace

pub record Trace : Type 0 where
  pub account : String
  pub blocknum : ℕ
  pub blocktime : String
  pub blockid : String
  pub trxid : String
  pub irreversible : Bool
  pub actions : List Act

-- What getTraceThumbnail gives.
pub record Resource : Type 0 where
  pub self_delegated : ℤ
  pub unstaking_request : ℤ

pub data Thumbnail : Type 0 where
  tokens_active : ℤ → Thumbnail
  emission : ℤ → Thumbnail
  producers : Option Value → Thumbnail
  calculators : Option Value → Thumbnail
  content : Option Value → Option Value → Thumbnail
  -- the kilobytes, in ten-thousandths, and the tokens
  ram : ℤ → ℤ → Thumbnail
  -- CPU and NET
  resources : Resource → Resource → Thumbnail

-- A row of blockchain.irreversible_traces.
pub record Row : Type 0 where
  pub tr_type : ℕ
  pub block_number : ℕ
  pub tr_id : String
  pub block_id : String
  pub tr_processed_data : Thumbnail
  pub account_name_from : Option Value
  pub account_name_to : Option Value
  pub memo : Option Value

-- How a processor answers: UnableToProcessError, MalformedProcessingError, or an error of no such
-- class.
pub data Attempt {ℓ} (A : Type ℓ) : Type ℓ where
  ok : A → Attempt A
  unable : Attempt A
  malformed : String → Attempt A
  type_error : String → Attempt A

infixl 5 ◌>>=◌ ◌>>◌
abbrev pub ◌>>=◌ {ℓ κ} : {A : Type ℓ} {B : Type κ} → Attempt A → (A → Attempt B) → Attempt B
ok a >>= f = f a
unable >>= f = unable
malformed e >>= f = malformed e
type_error e >>= f = type_error e

abbrev pub ◌>>◌ {ℓ} : {B : Type ℓ} → Attempt (Unit {0}) → Attempt B → Attempt B
m >> k = m >>= λ _. k

abbrev pub check {ℓ} : {A : Type ℓ} → Bool → Attempt A → A → Attempt A
check true fail a = ok a
check false fail a = fail

abbrev pub guard : Bool → Attempt (Unit {0}) → Attempt (Unit {0})
guard b fail = check b fail tt

abbrev pub found_or {ℓ} : {A : Type ℓ} → Attempt A → Option A → Attempt A
found_or fail none = fail
found_or fail (some a) = ok a

abbrev pub text_length : String → ℕ
text_length String.[] = 0
text_length (String.◌∷◌ c s) = suc (text_length s)

-- Inversion of a sequence that succeeds.
pub bind-eq-ok :
    {A B : Type 0} (m : Attempt A) (f : A → Attempt B) {b : B}
    → (m >>= f) ≡ ok b
    → (a : A) × (m ≡ ok a) × (f a ≡ ok b)
bind-eq-ok (ok a) f h = (a, refl, h)
bind-eq-ok unable f h = cc
bind-eq-ok (malformed e) f h = cc
bind-eq-ok (type_error e) f h = cc
