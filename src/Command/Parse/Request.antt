-- ===== src/Command/Parse/Request.antt =====
-- The requests that `parse_command` accepts.
use mathlib.Core.Path.{subst}
use native.Mathlib.Decide.{dec_le}
use redix.Prelude.{
  ℕ, ◌+◌, ◌≤◌, ◌<◌, ◌⊎◌, inl, inr, arith, ◌≡◌, ◌≢◌, refl, sym, ap, ◌∙◌, List, [], ◌∷◌, ◌↔◌, map,
  Bytes,
}
use redix.Resp.Value.{
  RespValue, Array, null, string, integer, error_message, array, no_elems, elem, to_array,
}
use redix.Command.Parse.{
  Command, CommandResult, command, rejected, Args, args, not_bulk, prepend, collect_args, finish,
  to_upper, uppercase, parse_command,
}

-- The array of bulk strings for a command and its arguments.
abbrev pub strings : List Bytes → Array
strings texts = to_array (map string texts)

abbrev pub request : Bytes → List Bytes → RespValue
request name arguments = array (strings (name ∷ arguments))

collect_args-strings : (texts : List Bytes) → collect_args (strings texts) ≡ args texts
unfolding collect_args
collect_args-strings [] = refl
collect_args-strings (s ∷ texts) = rw (collect_args-strings texts)

prepend-inv :
    (s : Bytes) (a : Args) (texts : List Bytes)
    → prepend s a ≡ args texts
    → (rest : List Bytes) × ((a ≡ args rest) × (texts ≡ s ∷ rest))
prepend-inv s (args rest) texts h = (rest, (refl, cc))
prepend-inv s not_bulk texts h = absurd (cc)

collect_args-inv :
    (vs : Array) (texts : List Bytes) → collect_args vs ≡ args texts → vs ≡ strings texts
unfolding collect_args
collect_args-inv no_elems [] h = refl
collect_args-inv no_elems (s ∷ texts) h = absurd (cc)
collect_args-inv (elem (string s) vs) texts h =
    let (rest, e) = prepend-inv s (collect_args vs) texts h in
    rw e.1 (ap (λ w. elem (string s) w) (collect_args-inv vs rest e.0))
collect_args-inv (elem null vs) texts h = absurd (cc)
collect_args-inv (elem (integer n) vs) texts h = absurd (cc)
collect_args-inv (elem (error_message s) vs) texts h = absurd (cc)
collect_args-inv (elem (array ws) vs) texts h = absurd (cc)

finish-inv :
    (name : Bytes) (a : Args) (cmd : Command)
    → finish name a ≡ command cmd
    → (cmd.name ≡ name) × (a ≡ args cmd.args)
unfolding finish
finish-inv name not_bulk cmd h = absurd (cc)
finish-inv [] (args rest) cmd h = absurd (cc)
finish-inv (c ∷ name) (args rest) cmd h =
    (ap (λ r. name_of r (c ∷ name)) (sym h), ap (λ r. args (args_of r rest)) h)
  where
    name_of : CommandResult → Bytes → Bytes
    name_of (command k) s = k.name
    name_of (rejected e) s = s

    args_of : CommandResult → List Bytes → List Bytes
    args_of (command k) s = k.args
    args_of (rejected e) s = s

-- The second byte is the first one in upper case: a letter from `a` to `z` is 32 behind its capital,
-- and any other byte is kept.
abbrev pub IsUpperOf : ℕ → ℕ → Type 0
IsUpperOf c u = ((97 ≤ c) × (c ≤ 122) × (u + 32 ≡ c)) ⊎ (((c < 97) ⊎ (122 < c)) × (u ≡ c))

-- The same for each byte of a text.
abbrev pub AreUpperOf : Bytes → Bytes → Type 0
AreUpperOf [] [] = Unit
AreUpperOf [] (u ∷ t) = ⊥
AreUpperOf (c ∷ s) [] = ⊥
AreUpperOf (c ∷ s) (u ∷ t) = IsUpperOf c u × AreUpperOf s t

to_upper-IsUpperOf : (c : ℕ) → IsUpperOf c (to_upper c)
unfolding to_upper
to_upper-IsUpperOf c = elim (dec_le 97 c) [
  | yes low ↦ elim (dec_le c 122) [
    | yes high ↦ inl (low, high, ground arith)
    | no above ↦ inr (inr (omega arith), ground arith)
  ]
  | no below ↦ inr (inl (omega arith), ground arith)
]

IsUpperOf-unique : (c u v : ℕ) → IsUpperOf c u → IsUpperOf c v → u ≡ v
IsUpperOf-unique c u v h k = ground arith

pub uppercase-AreUpperOf : (s : Bytes) → AreUpperOf s (uppercase s)
unfolding uppercase
uppercase-AreUpperOf [] = tt
uppercase-AreUpperOf (c ∷ s) = (to_upper-IsUpperOf c, uppercase-AreUpperOf s)

AreUpperOf-uppercase : (s t : Bytes) → AreUpperOf s t → t ≡ uppercase s
unfolding uppercase
AreUpperOf-uppercase [] [] h = refl
AreUpperOf-uppercase [] (u ∷ t) h = absurd h
AreUpperOf-uppercase (c ∷ s) [] h = absurd h
AreUpperOf-uppercase (c ∷ s) (u ∷ t) (h, hs) =
    let first = IsUpperOf-unique c u (to_upper c) h (to_upper-IsUpperOf c) in
    rw first (ap (λ r. to_upper c ∷ r) (AreUpperOf-uppercase s t hs))

-- The value is the request of a command, with a name that is not empty and that the command has in
-- upper case.
abbrev pub IsRequest : RespValue → Command → Type 0
IsRequest v cmd =
    (c : ℕ) × ((name : Bytes) × ((v ≡ request (c ∷ name) cmd.args)
        × AreUpperOf (c ∷ name) cmd.name))

finish-empty : (a : Args) (cmd : Command) → finish (uppercase []) a ≢ command cmd
unfolding finish uppercase
finish-empty not_bulk cmd = λ e. cc
finish-empty (args rest) cmd = λ e. cc

parse_command-inv :
    (v : RespValue) (cmd : Command) → parse_command v ≡ command cmd → IsRequest v cmd
unfolding parse_command
parse_command-inv null cmd h = absurd (cc)
parse_command-inv (string s) cmd h = absurd (cc)
parse_command-inv (integer n) cmd h = absurd (cc)
parse_command-inv (error_message s) cmd h = absurd (cc)
parse_command-inv (array no_elems) cmd h = absurd (cc)
parse_command-inv (array (elem null vs)) cmd h = absurd (cc)
parse_command-inv (array (elem (integer n) vs)) cmd h = absurd (cc)
parse_command-inv (array (elem (error_message s) vs)) cmd h = absurd (cc)
parse_command-inv (array (elem (array ws) vs)) cmd h = absurd (cc)
parse_command-inv (array (elem (string []) vs)) cmd h =
    absurd (finish-empty (collect_args vs) cmd h)
parse_command-inv (array (elem (string (c ∷ name)) vs)) cmd h =
    let (n, a) = finish-inv (uppercase (c ∷ name)) (collect_args vs) cmd h in
    (
      c,
      (
        name,
        (
          ap (λ w. array (elem (string (c ∷ name)) w)) (collect_args-inv vs cmd.args a),
          subst (AreUpperOf (c ∷ name)) (sym n) (uppercase-AreUpperOf (c ∷ name)),
        ),
      ),
    )

parse_command-request :
    (c : ℕ) (name : Bytes) (cmd : Command)
    → cmd.name ≡ uppercase (c ∷ name)
    → parse_command (request (c ∷ name) cmd.args) ≡ command cmd
unfolding parse_command finish uppercase
parse_command-request c name cmd q =
    rw (collect_args-strings cmd.args)
      (ap (λ n. command (record { name = n; args = cmd.args })) (sym q))

-- `parse_command` accepts exactly the arrays of strings whose first is not empty; the strings are
-- those of the parsed value, which does not tell a bulk string from a simple one. The command has the
-- first as its name, with the letters from `a` to `z` made capitals and the other bytes as they are,
-- and the others, as they are, as its arguments.
pub parse_command_iff :
    (v : RespValue) (cmd : Command) → (parse_command v ≡ command cmd) ↔ IsRequest v cmd
parse_command_iff v cmd = (
  parse_command-inv v cmd,
  λ (c, (name, (e, q))).
      ap parse_command e
      ∙ parse_command-request c name cmd (AreUpperOf-uppercase (c ∷ name) cmd.name q),
)
