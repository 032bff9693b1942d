-- ===== src/Reader/Coding.antt =====
-- A form of JSON values that can be read back, for the runs: each value as pairs of an operation and its
-- argument, which a stack machine carries out.
use seck.Base.{
  ℕ, zero, suc, ◌≡◌, refl, sym, ap, ◌∙◌, true, false, Option, none, some, List, [], ◌∷◌, ◌++◌,
  append_assoc, append-nil, Text,
}
use seck.Report.Value.{
  Number, unsigned, negative, float, Value, null, bool, number, str, array, object, Items, nil,
  cons, Fields, end, field,
}
use seck.Reader.Schema.{stub_value}

pub data Cell : Type 0 where
  of_value : Value → Cell
  of_items : Items → Cell
  of_fields : Fields → Cell
  of_text : Text → Cell

pub data Op : Type 0 where
  new_items add_item new_fields add_field new_text add_char push_null push_bool push_unsigned
        push_negative to_float to_str to_array to_object other_op :
      Op

op_of : ℕ → Op
op_of zero = new_items
op_of (suc zero) = add_item
op_of (suc (suc zero)) = new_fields
op_of (suc (suc (suc zero))) = add_field
op_of (suc (suc (suc (suc zero)))) = new_text
op_of (suc (suc (suc (suc (suc zero))))) = add_char
op_of (suc (suc (suc (suc (suc (suc zero)))))) = push_null
op_of (suc (suc (suc (suc (suc (suc (suc zero))))))) = push_bool
op_of (suc (suc (suc (suc (suc (suc (suc (suc zero)))))))) = push_unsigned
op_of (suc (suc (suc (suc (suc (suc (suc (suc (suc zero))))))))) = push_negative
op_of (suc (suc (suc (suc (suc (suc (suc (suc (suc (suc zero)))))))))) = to_float
op_of (suc (suc (suc (suc (suc (suc (suc (suc (suc (suc (suc zero))))))))))) = to_str
op_of (suc (suc (suc (suc (suc (suc (suc (suc (suc (suc (suc (suc zero)))))))))))) = to_array
op_of (suc (suc (suc (suc (suc (suc (suc (suc (suc (suc (suc (suc (suc zero))))))))))))) = to_object
op_of _ = other_op

step : Op → ℕ → List Cell → List Cell
step new_items n st = of_items nil ∷ st
step add_item n (of_value v ∷ of_items vs ∷ st) = of_items (cons v vs) ∷ st
step new_fields n st = of_fields end ∷ st
step add_field n (of_value v ∷ of_text k ∷ of_fields fs ∷ st) = of_fields (field k v fs) ∷ st
step new_text n st = of_text [] ∷ st
step add_char n (of_text t ∷ st) = of_text (n ∷ t) ∷ st
step push_null n st = of_value null ∷ st
step push_bool zero st = of_value (bool false) ∷ st
step push_bool (suc n) st = of_value (bool true) ∷ st
step push_unsigned n st = of_value (number (unsigned n)) ∷ st
step push_negative n st = of_value (number (negative n)) ∷ st
step to_float n (of_text t ∷ st) = of_value (number (float t)) ∷ st
step to_str n (of_text t ∷ st) = of_value (str t) ∷ st
step to_array n (of_items vs ∷ st) = of_value (array vs) ∷ st
step to_object n (of_fields fs ∷ st) = of_value (object fs) ∷ st
step _ n st = st

machine : Text → List Cell → List Cell
machine (op ∷ n ∷ s) st = machine s (step (op_of op) n st)
machine _ st = st

code_text : Text → Text
code_text [] = 4 ∷ 0 ∷ []
code_text (c ∷ t) = code_text t ++ (5 ∷ c ∷ [])

code_number : Number → Text
code_number (unsigned n) = 8 ∷ n ∷ []
code_number (negative n) = 9 ∷ n ∷ []
code_number (float t) = code_text t ++ (10 ∷ 0 ∷ [])

mutual
  code_value : Value → Text
  code_value null = 6 ∷ 0 ∷ []
  code_value (bool false) = 7 ∷ 0 ∷ []
  code_value (bool true) = 7 ∷ 1 ∷ []
  code_value (number n) = code_number n
  code_value (str t) = code_text t ++ (11 ∷ 0 ∷ [])
  code_value (array vs) = code_items vs ++ (12 ∷ 0 ∷ [])
  code_value (object fs) = code_fields fs ++ (13 ∷ 0 ∷ [])

  code_items : Items → Text
  code_items nil = 0 ∷ 0 ∷ []
  code_items (cons v vs) = code_items vs ++ (code_value v ++ (1 ∷ 0 ∷ []))

  code_fields : Fields → Text
  code_fields end = 2 ∷ 0 ∷ []
  code_fields (field k v fs) = code_fields fs ++ (code_text k ++ (code_value v ++ (3 ∷ 0 ∷ [])))

machine-text :
    (t s : Text) (st : List Cell) → machine (code_text t ++ s) st ≡ machine s (of_text t ∷ st)
unfolding machine step op_of code_text
machine-text [] s st = refl
machine-text (c ∷ t) s st =
    ap (λ x. machine x st) (append_assoc (code_text t) (5 ∷ c ∷ []) s)
    ∙ machine-text t (5 ∷ c ∷ s) st

machine-number :
    (n : Number) (s : Text) (st : List Cell)
    → machine (code_number n ++ s) st ≡ machine s (of_value (number n) ∷ st)
unfolding machine step op_of code_number
machine-number (unsigned n) s st = refl
machine-number (negative n) s st = refl
machine-number (float t) s st =
    ap (λ x. machine x st) (append_assoc (code_text t) (10 ∷ 0 ∷ []) s)
    ∙ machine-text t (10 ∷ 0 ∷ s) st

mutual
  unfolding machine step op_of code_value

  machine-value :
      (v : Value) (s : Text) (st : List Cell)
      → machine (code_value v ++ s) st ≡ machine s (of_value v ∷ st)
  machine-value null s st = refl
  machine-value (bool false) s st = refl
  machine-value (bool true) s st = refl
  machine-value (number n) s st = machine-number n s st
  machine-value (str t) s st =
      ap (λ x. machine x st) (append_assoc (code_text t) (11 ∷ 0 ∷ []) s)
      ∙ machine-text t (11 ∷ 0 ∷ s) st
  machine-value (array vs) s st =
      ap (λ x. machine x st) (append_assoc (code_items vs) (12 ∷ 0 ∷ []) s)
      ∙ machine-items vs (12 ∷ 0 ∷ s) st
  machine-value (object fs) s st =
      ap (λ x. machine x st) (append_assoc (code_fields fs) (13 ∷ 0 ∷ []) s)
      ∙ machine-fields fs (13 ∷ 0 ∷ s) st

  machine-items :
      (vs : Items) (s : Text) (st : List Cell)
      → machine (code_items vs ++ s) st ≡ machine s (of_items vs ∷ st)
  machine-items nil s st = refl
  machine-items (cons v vs) s st =
      ap (λ x. machine x st)
        (append_assoc (code_items vs) (code_value v ++ (1 ∷ 0 ∷ [])) s
          ∙ ap (λ x. code_items vs ++ x) (append_assoc (code_value v) (1 ∷ 0 ∷ []) s))
      ∙ machine-items vs _ st
      ∙ machine-value v (1 ∷ 0 ∷ s) (of_items vs ∷ st)

  machine-fields :
      (fs : Fields) (s : Text) (st : List Cell)
      → machine (code_fields fs ++ s) st ≡ machine s (of_fields fs ∷ st)
  machine-fields end s st = refl
  machine-fields (field k v fs) s st =
      let tail = 3 ∷ 0 ∷ [] in
      ap (λ x. machine x st)
        (append_assoc (code_fields fs) (code_text k ++ (code_value v ++ tail)) s
          ∙ ap (λ x. code_fields fs ++ x)
              (append_assoc (code_text k) (code_value v ++ tail) s
                ∙ ap (λ x. code_text k ++ x) (append_assoc (code_value v) tail s)))
      ∙ machine-fields fs _ st
      ∙ machine-text k _ (of_fields fs ∷ st)
      ∙ machine-value v (3 ∷ 0 ∷ s) (of_text k ∷ of_fields fs ∷ st)

top_value : List Cell → Option Value
top_value (of_value v ∷ _) = some v
top_value _ = none

-- A text that is no code stands for the answer of the stub.
unfoldable pub read_value : Text → Option Value
unfolding top_value machine step op_of
read_value (zero ∷ s) = top_value (machine s [])
read_value _ = some stub_value

unfoldable pub write_value : Value → Text
unfolding code_value code_text code_number
write_value v = 0 ∷ code_value v

pub read_value-write_value : (v : Value) → read_value (write_value v) ≡ some v
unfolding read_value write_value
read_value-write_value v =
    ap (λ x. top_value (machine x [])) (sym (append-nil (code_value v)))
    ∙ ap top_value (machine-value v [] [])
