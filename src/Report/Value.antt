-- ===== src/Report/Value.antt =====
-- JSON values as serde_json has them, and what `#[derive(Deserialize)]` makes of a struct: its fields
-- by name, others passed over, or all of them in order.
use seck.Base.{
  ℕ, zero, suc, Bool, Option, none, some, List, [], ◌∷◌, ◌==◌, if◌then◌else◌, equal, length, Text,
}
use seck.Base.Outcome.{Result, ok, err, ◌>>=◌, guard}
use seck.Base.Strings.{decimal}

-- A number is a `u64`, a negative one by its absolute value, or the text that `Display` makes of it.
pub data Number : Type 0 where
  unsigned : ℕ → Number
  negative : ℕ → Number
  float : Text → Number

mutual
  pub data Value : Type 0 where
    null : Value
    bool : Bool → Value
    number : Number → Value
    str : Text → Value
    array : Items → Value
    object : Fields → Value

  pub data Items : Type 0 where
    nil : Items
    cons : Value → Items → Items

  pub data Fields : Type 0 where
    end : Fields
    field : Text → Value → Fields → Fields

abbrev pub items : List Value → Items
items [] = nil
items (v ∷ vs) = cons v (items vs)

abbrev pub values : Items → List Value
values nil = []
values (cons v vs) = v ∷ values vs

abbrev pub fields : List (Text × Value) → Fields
fields [] = end
fields ((k, v) ∷ kvs) = field k v (fields kvs)

unfoldable pub lookup : Text → Fields → Option Value
lookup k end = none
lookup k (field k' v fs) = let rest = lookup k fs in if equal k k' then some v else rest

-- `Value::get` with a key, `as_array` and `as_str`
unfoldable pub get : Text → Value → Option Value
unfolding lookup
get k (object fs) = lookup k fs
get k _ = none

abbrev pub as_array : Value → Option (List Value)
as_array (array vs) = some (values vs)
as_array _ = none

abbrev pub as_str : Value → Option Text
as_str (str t) = some t
as_str _ = none

pub data JsonError : Type 0 where
  missing_field : Text → JsonError
  invalid_type invalid_length : JsonError

unfoldable pub nth_item : ℕ → Items → Option Value
nth_item i nil = none
nth_item zero (cons v vs) = some v
nth_item (suc i) (cons v vs) = nth_item i vs

abbrev pub or_missing : Text → Option Value → Result JsonError Value
or_missing k none = err (missing_field k)
or_missing k (some v) = ok v

-- The field at a place with a name.
unfoldable pub field_at : ℕ → Text → Value → Result JsonError Value
unfolding lookup nth_item
field_at i k (object fs) = or_missing k (lookup k fs)
field_at i k (array vs) = or_missing k (nth_item i vs)
field_at i k _ = err invalid_type

-- An array has as many elements as the struct has fields.
unfoldable pub is_struct : ℕ → Value → Result JsonError (Unit {0})
is_struct n (array vs) = guard (length (values vs) == n) invalid_length
is_struct n (object fs) = ok tt
is_struct n _ = err invalid_type

abbrev pub to_string : Value → Result JsonError Text
to_string (str t) = ok t
to_string _ = err invalid_type

abbrev pub to_u64 : Value → Result JsonError ℕ
to_u64 (number (unsigned n)) = ok n
to_u64 _ = err invalid_type

-- An `f32`, as the text that `Display` makes of it.
abbrev pub to_f32 : Value → Result JsonError Text
to_f32 (number (unsigned n)) = ok (decimal n)
to_f32 (number (negative n)) = ok (b'-' ∷ decimal n)
to_f32 (number (float t)) = ok t
to_f32 _ = err invalid_type

abbrev pub to_bool : Value → Result JsonError Bool
to_bool (bool b) = ok b
to_bool _ = err invalid_type

unfoldable pub all_of {ℓ} :
    {A : Type ℓ} → (Value → Result JsonError A) → List Value → Result JsonError (List A)
all_of f [] = ok []
all_of f (v ∷ vs) = do x ← f v; xs ← all_of f vs; ok (x ∷ xs)

abbrev pub to_vec {ℓ} :
    {A : Type ℓ} → (Value → Result JsonError A) → Value → Result JsonError (List A)
to_vec f (array vs) = all_of f (values vs)
to_vec f _ = err invalid_type
