-- ===== src/Resp/Value.antt =====
-- `RespValue`, and the outcome of a parse.
use redix.Prelude.{ℕ, suc, List, [], ◌∷◌, Bytes}
use redix.Prelude.Int.{ℤ}

-- The alternatives of `RespValue::Variant`; `Array` is `std::vector<RespValue>`.
mutual
  pub data RespValue : Type 0 where
    null : RespValue
    string : Bytes → RespValue
    integer : ℤ → RespValue
    error_message : Bytes → RespValue
    array : Array → RespValue

  pub data Array : Type 0 where
    no_elems : Array
    elem : RespValue → Array → Array

-- `ParseResult`: the status, with the value and the bytes consumed when it is `Complete`.
-- `length_error` is the exception that `values.reserve` throws, and `out_of_fuel` is the model's own.
pub data Parsed {ℓ} (A : Type ℓ) : Type ℓ where
  complete : A → ℕ → Parsed A
  incomplete error length_error out_of_fuel : Parsed A

abbrev pub ParseResult : Type 0
ParseResult = Parsed RespValue

abbrev pub bind {ℓ κ} : {A : Type ℓ} {B : Type κ} → Parsed A → (A → ℕ → Parsed B) → Parsed B
bind (complete a n) f = f a n
bind incomplete f = incomplete
bind error f = error
bind length_error f = length_error
bind out_of_fuel f = out_of_fuel

-- `array.size()`
abbrev pub size : Array → ℕ
size no_elems = 0
size (elem v vs) = suc (size vs)

-- `emplace_back` for each item of a list.
abbrev pub to_array : List RespValue → Array
to_array [] = no_elems
to_array (v ∷ vs) = elem v (to_array vs)
