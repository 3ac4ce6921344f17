-- ===== src/Store/Collection.antt =====
-- Hashes and sets as a client sees them: a collection for each key, and the commands that change it.
use mathlib.Core.Path.{subst}
use redix.Prelude.{ℕ, ◌+◌, ◌≡◌, ◌⊎◌, inl, inr, sym, ap, ◌∙◌, Option, none, some, arith, Bytes}
use redix.Prelude.Int.{ℤ, negsuc}
use redix.FlatMap.{text_order, insert, IsSorted}
use redix.Store.Value.{RedisValue, Entry, fresh, DataMap}
use redix.Store.Live.{is_expired, unless_expired, find_live, find_live_mut}
use redix.Store.View.{
  find_live-written, find_live_mut-eq-find_live, find_live-find_live_mut, find_live_mut-IsLive,
  IsSorted-find_live_mut, IsUntouched,
}

-- One of the alternatives of a value: how to make it, and how to read it.
pub record Kind (C : Type 0) : Type 0 where
  pub make : C → RedisValue
  pub select : RedisValue → Option C
  pub empty : C
  pub select-make : (c : C) → select (make c) ≡ some c
  pub kind_cases : (v : RedisValue) → ((c : C) × (v ≡ make c)) ⊎ (select v ≡ none)

-- The reply and the new collection, of a command that takes `step` on it; -1 for another type.
abbrev pub updated : {C : Type 0} → (C → ℤ × C) → Option C → ℤ × Option C
updated step none = (negsuc 0, none)
updated step (some c) = ((step c).0, some (step c).1)

module _ {C : Type 0} (k : Kind C) where
  -- The collection of a key: empty for a missing one, none for one of another type.
  abbrev pub held : Option Entry → Option C
  held none = some k.empty
  held (some e) = k.select e.value

  abbrev pub collection : ℕ → Bytes → DataMap → Option C
  collection now key d = held (find_live now key d)

  abbrev pub observe : ℕ → Bytes → ℤ × DataMap → ℤ × Option C
  observe now key (n, d) = (n, collection now key d)

  still_live :
      (now : ℕ) (v v' : RedisValue) (x : ℕ)
      → (let e : Entry = record { value = v; expires_at_ms = x } in
          unless_expired now (some e) ≡ some e)
      → (let e : Entry = record { value = v'; expires_at_ms = x } in
          unless_expired now (some e) ≡ some e)
  unfolding is_expired
  still_live now v v' x h = ground arith

  -- A collection that is written in place of a live entry.
  pub collection-written :
      (now : ℕ) (key : Bytes) (c : C) (v : RedisValue) (x : ℕ) (d : DataMap)
      → (let e : Entry = record { value = v; expires_at_ms = x } in
          unless_expired now (some e) ≡ some e)
      → collection now key (insert key (record { value = k.make c; expires_at_ms = x }) d) ≡ some c
  collection-written now key c v x d h =
      ap held (find_live-written now key _ d ∙ still_live now v (k.make c) x h) ∙ k.select-make c

  fresh_live : (now : ℕ) (v : RedisValue) → unless_expired now (some (fresh v)) ≡ some (fresh v)
  unfolding is_expired
  fresh_live now v = ground arith

  pub collection-fresh :
      (now : ℕ) (key : Bytes) (c : C) (d : DataMap)
      → collection now key (insert key (fresh (k.make c)) d) ≡ some c
  collection-fresh now key c d =
      collection-written now key c (k.make c) 0 d (fresh_live now (k.make c))

  module _ (step : C → ℤ × C) (now : ℕ) (key : Bytes) (after : Option Entry → DataMap → ℤ × DataMap)
      (missing : (d : DataMap)
        → collection now key d ≡ some k.empty
        → observe now key (after none d) ≡ updated step (some k.empty))
      (present : (x : ℕ) (c : C) (d : DataMap)
        → (let e : Entry = record { value = k.make c; expires_at_ms = x } in
            unless_expired now (some e) ≡ some e
            → IsSorted d
            → observe now key (after (some e) d) ≡ updated step (some c)))
      (other : (v : RedisValue) (x : ℕ) (d : DataMap)
        → k.select v ≡ none
        → after (some (record { value = v; expires_at_ms = x })) d ≡ (negsuc 0, d)) where
    value_lem :
        (v : RedisValue) (x : ℕ) (d : DataMap)
        → (let e : Entry = record { value = v; expires_at_ms = x } in
            unless_expired now (some e) ≡ some e
            → IsSorted d
            → collection now key d ≡ k.select v
            → observe now key (after (some e) d) ≡ updated step (k.select v))
    value_lem v x d live s q = elim (k.kind_cases v) [
      | inl (c, e) ↦
          subst
            (λ w.
              unless_expired now (some (record { value = w; expires_at_ms = x }))
                ≡ some (record { value = w; expires_at_ms = x })
              → observe now key (after (some (record { value = w; expires_at_ms = x })) d)
                ≡ updated step (k.select w))
            (sym e) (λ l. present x c d l s ∙ ap (updated step) (sym (k.select-make c))) live
      | inr e ↦
          ap (observe now key) (other v x d e)
          ∙ ap (λ r. (negsuc 0, r)) (q ∙ e)
          ∙ ap (updated step) (sym e)
    ]

    -- The whole command.
    pub update_lem :
        (d : DataMap)
        → IsSorted d
        → observe now key (after (find_live_mut now key d).0 (find_live_mut now key d).1)
          ≡ updated step (collection now key d)
    update_lem d s =
        let same_it = find_live_mut-eq-find_live now key d in
        branch (find_live_mut now key d).0 (find_live_mut-IsLive now key d) (
          ap held (
            sym (
              find_live_mut-eq-find_live now key d
              ∙ sym (find_live-find_live_mut now now key key d s (omega arith)))))
        ∙ ap (λ o. updated step (held o)) same_it
      where
        branch :
            (it : Option Entry)
            → unless_expired now it ≡ it
            → collection now key (find_live_mut now key d).1 ≡ held it
            → observe now key (after it (find_live_mut now key d).1) ≡ updated step (held it)
        branch none live q = missing (find_live_mut now key d).1 q
        branch (some e) live q =
            value_lem e.value e.expires_at_ms (find_live_mut now key d).1 live
              (IsSorted-find_live_mut now key d s) q

  module _ (now : ℕ) (key : Bytes) (after : Option Entry → DataMap → ℤ × DataMap)
      (other : (v : RedisValue) (x : ℕ) (d : DataMap)
        → k.select v ≡ none
        → after (some (record { value = v; expires_at_ms = x })) d ≡ (negsuc 0, d)) where
    -- For a key of another type no client sees a change.
    pub untouched_lem :
        (d : DataMap)
        → IsSorted d
        → IsUntouched
            (collection now key d)
            now
            d
            (after (find_live_mut now key d).0 (find_live_mut now key d).1).1
    untouched_lem d s =
        subst
          (λ it.
            IsUntouched (held it) now d
              (after (find_live_mut now key d).0 (find_live_mut now key d).1).1)
          (find_live_mut-eq-find_live now key d)
          (by_entry (find_live_mut now key d).0 (find_live_mut now key d).1
            (λ m j. find_live-find_live_mut now (now + m) j key d s (omega arith)))
      where
        by_entry :
            (it : Option Entry) (d' : DataMap)
            → ((m : ℕ) (j : Bytes) → find_live (now + m) j d' ≡ find_live (now + m) j d)
            → IsUntouched (held it) now d (after it d').1
        by_entry none d' h = tt
        by_entry (some e) d' h = elim (k.kind_cases e.value) [
          | inl (c, q) ↦
              subst (λ o. IsUntouched o now d (after (some e) d').1)
                (sym (ap k.select q ∙ k.select-make c)) tt
          | inr q ↦
              subst (λ o. IsUntouched o now d (after (some e) d').1) (sym q)
                λ m j.
                  ap (λ (r : ℤ × DataMap). find_live (now + m) j r.1)
                    (other e.value e.expires_at_ms d' q)
                  ∙ h m j
        ]
