-- ===== src/Store/Keeps/Strings.antt =====
-- The operations on strings and on expiry times.
use redix.Prelude.{ℕ, Bool, Option, none, some, List, [], ◌∷◌, ◌==◌, Bytes}
use redix.Prelude.Int.{ℤ}
use redix.Decimal.{parse_i64}
use redix.Store.Value.{Entry, DataMap, Expected, ok, err, Clock, later}
use redix.Store.Strings.{
  checked_add, checked_subtract, set, del_loop, del, write_next, apply_delta, write_initial, incrby,
  incr, decrby, decr, append, getset, mset,
}
use redix.Store.Expiry.{pexpire, expire, persist}
use redix.Store.Keeps.{
  Closed, if_end_rule, if_string_rule, if_rule, find_live_mut-keeps, find_live_mut-valid,
}

module _ {κ} {key : Bytes} {I : DataMap → Type κ} (c : Closed key I) where
  pub set-keeps : (value : Bytes) (t : ℕ) (d : DataMap) → I d → I (set key value t d)
  unfolding set
  set-keeps value t d h = c.written d _ tt h

  write_next-keeps : (e : Entry) (d : DataMap) (r : Expected ℤ) → I d → I (write_next key e d r).1
  write_next-keeps e d (ok n) h = c.written d _ tt h
  write_next-keeps e d (err x) h = h

  apply_delta-keeps :
      (op : ℤ → ℤ → Expected ℤ) (delta : ℤ) (e : Entry) (d : DataMap) (current : Option ℤ)
      → I d
      → I (apply_delta op key delta e d current).1
  apply_delta-keeps op delta e d none h = h
  apply_delta-keeps op delta e d (some n) h = write_next-keeps e d (op n delta) h

  write_initial-keeps : (d : DataMap) (r : Expected ℤ) → I d → I (write_initial key d r).1
  write_initial-keeps d (ok n) h = c.written d _ tt h
  write_initial-keeps d (err x) h = h

  pub incrby-keeps : (now : ℕ) (delta : ℤ) (d : DataMap) → I d → I (incrby now key delta d).1
  unfolding incrby
  incrby-keeps now delta d h =
      let kept = find_live_mut-keeps c now d h in
      if_end_rule (λ (r : Expected ℤ × DataMap). I r.1) _ _ _ (c.written _ _ tt kept)
        λ e q.
          if_string_rule (λ (r : Expected ℤ × DataMap). I r.1) e.value _ _ kept
            λ s. apply_delta-keeps checked_add delta e _ (parse_i64 s) kept

  pub incr-keeps : (now : ℕ) (d : DataMap) → I d → I (incr now key d).1
  unfolding incr
  incr-keeps now d h = incrby-keeps now _ d h

  pub decrby-keeps : (now : ℕ) (delta : ℤ) (d : DataMap) → I d → I (decrby now key delta d).1
  unfolding decrby
  decrby-keeps now delta d h =
      let kept = find_live_mut-keeps c now d h in
      if_end_rule (λ (r : Expected ℤ × DataMap). I r.1) _ _ _ (write_initial-keeps _ _ kept)
        λ e q.
          if_string_rule (λ (r : Expected ℤ × DataMap). I r.1) e.value _ _ kept
            λ s. apply_delta-keeps checked_subtract delta e _ (parse_i64 s) kept

  pub decr-keeps : (now : ℕ) (d : DataMap) → I d → I (decr now key d).1
  unfolding decr
  decr-keeps now d h = decrby-keeps now _ d h

  pub append-keeps : (now : ℕ) (suffix : Bytes) (d : DataMap) → I d → I (append now key suffix d).1
  unfolding append
  append-keeps now suffix d h =
      let kept = find_live_mut-keeps c now d h in
      if_end_rule (λ (r : Expected ℤ × DataMap). I r.1) _ _ _ (c.written _ _ tt kept)
        λ e q.
          if_string_rule (λ (r : Expected ℤ × DataMap). I r.1) e.value _ _ kept
            λ s. c.written _ _ tt kept

  pub getset-keeps : (now : ℕ) (value : Bytes) (d : DataMap) → I d → I (getset now key value d).1
  unfolding getset
  getset-keeps now value d h =
      let kept = find_live_mut-keeps c now d h in
      if_end_rule (λ (r : Expected Bytes × DataMap). I r.1) _ _ _ (c.written _ _ tt kept)
        λ e q.
          if_string_rule (λ (r : Expected Bytes × DataMap). I r.1) e.value _ _ kept
            λ s. c.written _ _ tt kept

  pub pexpire-keeps : (clock : Clock) (ms : ℕ) (d : DataMap) → I d → I (pexpire clock key ms d).1
  unfolding pexpire
  pexpire-keeps clock ms d h =
      let kept = find_live_mut-keeps c (clock 0) d h in
      if_end_rule (λ (r : Bool × DataMap). I r.1) _ _ _ kept
        λ e q. c.written _ _ (find_live_mut-valid c (clock 0) d e h q) kept

  pub expire-keeps : (clock : Clock) (s : ℕ) (d : DataMap) → I d → I (expire clock key s d).1
  unfolding expire
  expire-keeps clock s d h = pexpire-keeps clock _ d h

  pub persist-keeps : (now : ℕ) (d : DataMap) → I d → I (persist now key d).1
  unfolding persist
  persist-keeps now d h =
      let kept = find_live_mut-keeps c now d h in
      if_end_rule (λ (r : Bool × DataMap). I r.1) _ _ _ kept
        λ e q.
          if_rule (λ (r : Bool × DataMap). I r.1) (e.expires_at_ms == 0) _ _ kept
            (c.written _ _ (find_live_mut-valid c now d e h q) kept)

-- The operations on several keys.
module _ {κ} {I : DataMap → Type κ} (c : (key : Bytes) → Closed key I) where
  del_loop-keeps :
      (clock : Clock) (keys : List Bytes) (n : ℕ) (d : DataMap)
      → I d
      → I (del_loop clock keys n d).1
  unfolding del_loop
  del_loop-keeps clock [] n d h = h
  del_loop-keeps clock (key ∷ keys) n d h =
      let kept = find_live_mut-keeps (c key) (clock 0) d h in
      del_loop-keeps (later clock) keys _ _
        (if_end_rule (λ (r : ℕ × DataMap). I r.1) _ _ _ kept λ e q. (c key).erased _ kept)

  pub del-keeps : (clock : Clock) (keys : List Bytes) (d : DataMap) → I d → I (del clock keys d).1
  unfolding del
  del-keeps clock keys d h = del_loop-keeps clock keys 0 d h

  pub mset-keeps : (pairs : List (Bytes × Bytes)) (d : DataMap) → I d → I (mset pairs d)
  unfolding mset
  mset-keeps [] d h = h
  mset-keeps ((key, value) ∷ pairs) d h = mset-keeps pairs _ ((c key).written d _ tt h)
