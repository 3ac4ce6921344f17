-- ===== src/Client/Rounds.antt =====
-- `enqueue_response` and `on_writable` in turn: what comes out of a connection.
use redix.Prelude.{
  ℕ, ◌+◌, ◌-◌, ◌≡◌, ◌≤◌, ◌<◌, refl, sym, ap, ◌∙◌, List, [], ◌∷◌, ◌++◌, arith, length, length-drop,
  length-append, drop-append_le, if◌then◌else◌, append-nil, append_assoc, Bytes,
}
use native.Mathlib.Decide.{dec_lt}
use mathlib.Core.Path.{subst}
use redix.Client.{Client, SendEnd, send_would_block, survives, on_writable, enqueue_response}
use redix.Client.Output.{
  pending, accepted, ending, emptied, sent, on_writable_lem, sent-all, sent-part, sent-left,
  sent-offset, sent-pending, take-drop, drop-drop,
}

-- The event loop calls `on_writable` again and again, unless it returns false.
abbrev pub Round : Type 0
Round = List ℕ × SendEnd

unfoldable pub write_rounds : List Round → Client → Client × Bytes
write_rounds [] c = (c, [])
write_rounds ((counts, last) ∷ rounds) c =
    let (alive, c', bytes) = on_writable counts last c in
    let (c'', more) = write_rounds rounds c' in if alive then (c'', bytes ++ more) else (c', bytes)

-- In each round the kernel accepts something of the `p` bytes that are left and no more than them,
-- and no `send` fails.
abbrev pub AreProgress : List Round → ℕ → Type 0
AreProgress [] p = Unit
AreProgress ((counts, last) ∷ rounds) p =
    (accepted counts ≤ p)
    × (0 < p → 0 < accepted counts)
    × (ending counts last ≡ send_would_block)
    × AreProgress rounds (p - accepted counts)

rounds-cleared :
    (rounds : List Round) (p : ℕ) (c : Client)
    → p ≡ 0
    → AreProgress rounds p
    → write_rounds rounds (emptied c) ≡ (emptied c, [])
unfolding write_rounds
rounds-cleared [] p c z h = refl
rounds-cleared ((counts, last) ∷ rounds) p c z (h, some_sent, alive, more) =
    let step = on_writable_lem counts last (emptied c) (omega arith) (omega (arith, h, z)) in
    let rest = rounds-cleared rounds (p - accepted counts) c (omega (arith, z)) more in
    rw (step, sent-all (accepted counts) (ending counts last) (emptied c) (omega arith))
      (rw rest refl)

-- From a connection whose offset lies inside its buffer or at its end: where each round makes progress
-- and there are at least as many rounds as bytes, and at least one, the rounds send what is queued,
-- whole and in order; then nothing is queued, and the connection is in the state in which it waits
-- for requests.
pub write_rounds_lem :
    (rounds : List Round) (c : Client)
    → c.write_offset ≤ length c.write_buf
    → AreProgress rounds (length (pending c))
    → length (pending c) ≤ length rounds
    → 0 < length rounds
    → write_rounds rounds c ≡ (emptied c, pending c)
unfolding write_rounds
write_rounds_lem [] c w h enough some_round = absurd (omega arith)
write_rounds_lem ((counts, last) ∷ rounds) c w (h, some_sent, alive, more) enough some_round =
    let n = accepted counts in
    let step = on_writable_lem counts last c w h in
    let taken : Client = record c { write_offset = c.write_offset + n } in
    let l = length-drop c.write_offset c.write_buf in
    let l' = length-drop (c.write_offset + n) c.write_buf in
    elim (dec_lt n (length (pending c))) [
      | yes lt ↦
          let same : length (pending c) - n ≡ length (pending taken) = omega (arith, l, l') in
          let progress : AreProgress rounds (length (pending taken)) =
            subst (AreProgress rounds) same more in
          let p : 0 < n = some_sent (omega arith) in
          let rest =
            write_rounds_lem rounds taken (omega (arith, l)) progress (omega (arith, same, p))
              (omega (arith, p)) in
          let shifted = drop-drop n c.write_offset (c.write_offset + n) c.write_buf (omega arith) in
          let joined = take-drop n (pending c) in
          rw (step, sent-part n (ending counts last) c lt)
            (rw (ap survives alive, rest) (rw (sym shifted) (ap (λ b. (emptied c, b)) joined)))
      | no ge ↦
          let rest = rounds-cleared rounds (length (pending c) - n) c (omega arith) more in
          rw (step, sent-all n (ending counts last) c (omega arith))
            (rw (rest, append-nil (pending c)) refl)
    ]

-- What happens to a connection's output.
pub data Output : Type 0 where
  enqueued : Bytes → Output
  written : List ℕ → SendEnd → Output

unfoldable pub outputs : List Output → Client → Client × Bytes
outputs [] c = (c, [])
outputs (enqueued bytes ∷ rest) c = outputs rest (enqueue_response bytes c)
outputs (written counts last ∷ rest) c =
    let (alive, c', bytes) = on_writable counts last c in
    let (c'', more) = outputs rest c' in (c'', bytes ++ more)

abbrev pub all_enqueued : List Output → Bytes
all_enqueued [] = []
all_enqueued (enqueued bytes ∷ rest) = bytes ++ all_enqueued rest
all_enqueued (written counts last ∷ rest) = all_enqueued rest

-- No `send` accepts more than it is given: `p` bytes are left.
abbrev pub AreAccepted : List Output → ℕ → Type 0
AreAccepted [] p = Unit
AreAccepted (enqueued bytes ∷ rest) p = AreAccepted rest (p + length bytes)
AreAccepted (written counts last ∷ rest) p =
    (accepted counts ≤ p) × AreAccepted rest (p - accepted counts)

-- What was sent and what is left are what was queued, in the order of the calls.
pub outputs_lem :
    (events : List Output) (c : Client)
    → c.write_offset ≤ length c.write_buf
    → AreAccepted events (length (pending c))
    → (outputs events c).1 ++ pending (outputs events c).0 ≡ pending c ++ all_enqueued events
unfolding outputs enqueue_response
outputs_lem [] c w h = sym (append-nil (pending c))
outputs_lem (enqueued bytes ∷ rest) c w h =
    let queued = drop-append_le c.write_offset c.write_buf bytes w in
    let longer = length-append c.write_buf bytes in
    let count : length (pending c) + length bytes ≡ length (pending (enqueue_response bytes c)) =
      sym (ap length queued ∙ length-append (pending c) bytes) in
    let ih =
      outputs_lem rest (enqueue_response bytes c) (omega (arith, longer))
        (subst (AreAccepted rest) count h) in
    ih ∙ rw queued (append_assoc (pending c) bytes (all_enqueued rest))
outputs_lem (written counts last ∷ rest) c w (h, more) =
    let n = accepted counts in
    let left = sent-left n (ending counts last) c h in
    let ih =
      outputs_lem rest (sent n (ending counts last) c).1 (sent-offset n (ending counts last) c w)
        (subst (AreAccepted rest) (sym left) more) in
    let out = (sent n (ending counts last) c).2 in
    rw (on_writable_lem counts last c w h) (
      append_assoc out (outputs rest (sent n (ending counts last) c).1).1
        (pending (outputs rest (sent n (ending counts last) c).1).0)
      ∙ ap (λ b. out ++ b) ih
      ∙ sym (append_assoc out (pending (sent n (ending counts last) c).1) (all_enqueued rest))
      ∙ ap (λ b. b ++ all_enqueued rest) (sent-pending n (ending counts last) c))
