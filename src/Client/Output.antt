-- ===== src/Client/Output.antt =====
-- `on_writable`: what is sent.
use redix.Prelude.{
  ℕ, suc, zero, ◌+◌, ◌-◌, ◌≡◌, ◌≤◌, ◌<◌, refl, sym, ap, Bool, true, List, [], ◌∷◌, ◌++◌, arith,
  length, length-drop, take, drop, ltb, if◌then◌else◌, append-nil, Bytes,
}
use native.Mathlib.Decide.{dec_lt}
use redix.Client.{Client, SendEnd, send_would_block, reading, survives, on_writable}

-- What is queued and not sent.
abbrev pub pending : Client → Bytes
pending c = drop c.write_offset c.write_buf

-- How much the calls of `send` accept, up to one that accepts nothing.
abbrev pub accepted : List ℕ → ℕ
accepted [] = 0
accepted (zero ∷ ns) = 0
accepted (suc n ∷ ns) = suc n + accepted ns

-- How they end.
abbrev pub ending : List ℕ → SendEnd → SendEnd
ending [] last = last
ending (zero ∷ ns) last = send_would_block
ending (suc n ∷ ns) last = ending ns last

drop-nil : (n : ℕ) → drop {A = ℕ} n [] ≡ []
drop-nil zero = refl
drop-nil (suc n) = refl

take-nil : (n : ℕ) → take {A = ℕ} n [] ≡ []
take-nil zero = refl
take-nil (suc n) = refl

pub drop-drop : (m n t : ℕ) (s : Bytes) → n + m ≡ t → drop m (drop n s) ≡ drop t s
drop-drop m zero t s e = let same : m ≡ t = omega arith in rw same
drop-drop m (suc n) zero s e = absurd (omega arith)
drop-drop m (suc n) (suc t) [] e = drop-nil m
drop-drop m (suc n) (suc t) (x ∷ s) e = drop-drop m n t s (omega arith)

pub take-append_drop :
    (m n t : ℕ) (s : Bytes) → m + n ≡ t → take m s ++ take n (drop m s) ≡ take t s
take-append_drop zero n t s e = let same : n ≡ t = omega arith in rw same
take-append_drop (suc m) n zero s e = absurd (omega arith)
take-append_drop (suc m) n (suc t) [] e = take-nil n
take-append_drop (suc m) n (suc t) (x ∷ s) e =
    ap (λ r. x ∷ r) (take-append_drop m n t s (omega arith))

pub take-all : (n : ℕ) (s : Bytes) → length s ≤ n → take n s ≡ s
take-all zero [] h = refl
take-all zero (x ∷ s) h = absurd (omega arith)
take-all (suc n) [] h = refl
take-all (suc n) (x ∷ s) h = ap (λ r. x ∷ r) (take-all n s (omega arith))

pub take-drop : (n : ℕ) (s : Bytes) → take n s ++ drop n s ≡ s
take-drop zero s = refl
take-drop (suc n) [] = refl
take-drop (suc n) (x ∷ s) = ap (λ r. x ∷ r) (take-drop n s)

length-zero : (s : Bytes) → length s ≡ 0 → s ≡ []
length-zero [] e = refl
length-zero (x ∷ s) e = absurd (omega arith)

-- Nothing is queued, and the connection waits for requests.
abbrev pub emptied : Client → Client
emptied c = record c { write_buf = []; write_offset = 0; state = reading }

-- What `on_writable` does for the total that the kernel accepts.
abbrev pub sent : ℕ → SendEnd → Client → Bool × Client × Bytes
sent total last c =
    if ltb total (length (pending c))
    then (survives last, record c { write_offset = c.write_offset + total }, take total (pending c))
    else (true, emptied c, pending c)

pub nothing-pending : (c : Client) → length c.write_buf ≤ c.write_offset → pending c ≡ []
nothing-pending c h =
    length-zero (pending c) (omega (arith, length-drop c.write_offset c.write_buf))

pub on_writable_lem :
    (counts : List ℕ) (last : SendEnd) (c : Client)
    → c.write_offset ≤ length c.write_buf
    → accepted counts ≤ length (pending c)
    → on_writable counts last c ≡ sent (accepted counts) (ending counts last) c
unfolding on_writable
on_writable_lem [] last c w h =
    ground (arith, length-drop c.write_offset c.write_buf, nothing-pending c)
on_writable_lem (zero ∷ ns) last c w h =
    ground (arith, length-drop c.write_offset c.write_buf, nothing-pending c)
on_writable_lem (suc k ∷ ns) last c w h =
    let n = suc k in
    let more = accepted ns in
    let taken : Client = record c { write_offset = c.write_offset + n } in
    let l = length-drop c.write_offset c.write_buf in
    let l' = length-drop (c.write_offset + n) c.write_buf in
    let bound : n + more ≤ length c.write_buf - c.write_offset = omega (arith, h, l) in
    let bound' : more ≤ length (pending taken) = omega (arith, bound, l') in
    let ih = on_writable_lem ns last taken (omega (arith, bound)) bound' in
    let joined = take-append_drop n more (n + more) (pending c) refl in
    let shifted = drop-drop n c.write_offset (c.write_offset + n) c.write_buf refl in
    let all = take-all (n + more) (pending c) in
    rw ih (
      ground (arith, joined, shifted, all, l, l', nothing-pending c, take-all more (pending taken)))

pub sent-all :
    (n : ℕ) (last : SendEnd) (c : Client)
    → length (pending c) ≤ n
    → sent n last c ≡ (true, emptied c, pending c)
sent-all n last c h = ground arith

pub sent-part :
    (n : ℕ) (last : SendEnd) (c : Client)
    → n < length (pending c)
    → sent n last c
      ≡ (survives last, record c { write_offset = c.write_offset + n }, take n (pending c))
sent-part n last c h = ground arith

-- What is sent and what is left then are what was queued.
pub sent-pending :
    (n : ℕ) (last : SendEnd) (c : Client)
    → (sent n last c).2 ++ pending (sent n last c).1 ≡ pending c
sent-pending n last c = elim (dec_lt n (length (pending c))) [
  | yes lt ↦
      let shifted = drop-drop n c.write_offset (c.write_offset + n) c.write_buf (omega arith) in
      rw (sent-part n last c lt) (rw (sym shifted) (take-drop n (pending c)))
  | no ge ↦ rw (sent-all n last c (omega arith)) (append-nil (pending c))
]

pub sent-offset :
    (n : ℕ) (last : SendEnd) (c : Client)
    → c.write_offset ≤ length c.write_buf
    → (sent n last c).1.write_offset ≤ length (sent n last c).1.write_buf
sent-offset n last c w = ground (arith, length-drop c.write_offset c.write_buf)

pub sent-left :
    (n : ℕ) (last : SendEnd) (c : Client)
    → n ≤ length (pending c)
    → length (pending (sent n last c).1) ≡ length (pending c) - n
sent-left n last c h =
    let l = length-drop c.write_offset c.write_buf in
    let l' = length-drop (c.write_offset + n) c.write_buf in
    elim (dec_lt n (length (pending c))) [
      | yes lt ↦ rw (sent-part n last c lt) (omega (arith, l, l'))
      | no ge ↦ rw (sent-all n last c (omega arith)) (omega arith)
    ]
