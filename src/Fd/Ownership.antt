-- ===== src/Fd/Ownership.antt =====
-- Who owns a descriptor: the objects of the class, and what they closed and released.
use redix.Prelude.{
  ℕ, zero, suc, ◌+◌, ◌≡◌, ◌≢◌, ◌<◌, refl, ap, ◌&&◌, List, [], ◌∷◌, ◌++◌, arith, ltb, ◌==◌,
  if◌then◌else◌, length,
}
use redix.Prelude.Int.{ℤ, pos, negsuc}
use redix.Fd.{FileDescriptor, no_fd, is_open, destroy, move_construct, move_assign, release}

-- An object is an index of `objects`. A destroyed object stays, empty.
pub record Objects : Type 0 where
  pub objects : List FileDescriptor
  pub closed : List ℤ
  pub released : List ℤ

abbrev pub object_at : ℕ → List FileDescriptor → FileDescriptor
object_at i [] = no_fd
object_at zero (x ∷ xs) = x
object_at (suc i) (x ∷ xs) = object_at i xs

abbrev pub replace : ℕ → FileDescriptor → List FileDescriptor → List FileDescriptor
replace i v [] = []
replace zero v (x ∷ xs) = v ∷ xs
replace (suc i) v (x ∷ xs) = x ∷ replace i v xs

-- `FileDescriptor f{fd}`, `FileDescriptor f{std::move(i)}`, `i = std::move(j)`, `i.release()`, and
-- the end of an object.
pub data Operation : Type 0 where
  construct : ℤ → Operation
  construct_from : ℕ → Operation
  assign_from : ℕ → ℕ → Operation
  release_object : ℕ → Operation
  destroy_object : ℕ → Operation

abbrev assigned : ℕ → ℕ → FileDescriptor × FileDescriptor × List ℤ → Objects → Objects
assigned i j (self, other, closed) s = record s {
  objects = replace j other (replace i self s.objects);
  closed = closed ++ s.closed;
}

unfoldable pub apply : Operation → Objects → Objects
unfolding move_construct move_assign release destroy
apply (construct fd) s = record s { objects = s.objects ++ (fd ∷ []) }
apply (construct_from i) s =
    let (made, other) = move_construct (object_at i s.objects) in
    record s { objects = replace i other s.objects ++ (made ∷ []) }
apply (assign_from i j) s =
    let moved = assigned i j (move_assign (object_at i s.objects) (object_at j s.objects)) s in
    if ltb i (length s.objects) && ltb j (length s.objects) then if i == j then s else moved else s
apply (release_object i) s =
    let (fd, left) = release (object_at i s.objects) in
    record s { objects = replace i left s.objects; released = fd ∷ s.released }
apply (destroy_object i) s = record s {
  objects = replace i no_fd s.objects;
  closed = destroy (object_at i s.objects) ++ s.closed;
}

unfoldable pub apply_all : List Operation → Objects → Objects
unfolding apply
apply_all [] s = s
apply_all (op ∷ ops) s = apply_all ops (apply op s)

-- Whether a value is the open descriptor `n`, as a number.
abbrev held : ℕ → ℤ → ℕ
held n (pos m) = if m == n then 1 else 0
held n (negsuc m) = 0

abbrev pub count : ℕ → List ℤ → ℕ
count n [] = 0
count n (x ∷ xs) = held n x + count n xs

count-append : (n : ℕ) (xs ys : List ℤ) → count n (xs ++ ys) ≡ count n xs + count n ys
count-append n [] ys = omega arith
count-append n (x ∷ xs) ys = omega (arith, count-append n xs ys)

count-emptied :
    (n i : ℕ) (xs : List ℤ) → count n (replace i no_fd xs) + held n (object_at i xs) ≡ count n xs
count-emptied n i [] = omega arith
count-emptied n zero (x ∷ xs) = omega arith
count-emptied n (suc i) (x ∷ xs) = omega (arith, count-emptied n i xs)

count-replace :
    (n i : ℕ) (v : ℤ) (xs : List ℤ)
    → i < length xs
    → count n (replace i v xs) + held n (object_at i xs) ≡ count n xs + held n v
count-replace n i v [] h = absurd (omega arith)
count-replace n zero v (x ∷ xs) h = omega arith
count-replace n (suc i) v (x ∷ xs) h = omega (arith, count-replace n i v xs)

object_at-replace :
    (i j : ℕ) (v : ℤ) (xs : List ℤ) → i ≢ j → object_at j (replace i v xs) ≡ object_at j xs
object_at-replace i j v [] h = refl
object_at-replace zero zero v (x ∷ xs) h = absurd (h refl)
object_at-replace zero (suc j) v (x ∷ xs) h = refl
object_at-replace (suc i) zero v (x ∷ xs) h = refl
object_at-replace (suc i) (suc j) v (x ∷ xs) h =
    object_at-replace i j v xs (λ e. h (ap (λ k. suc k) e))

count-destroy : (n : ℕ) (fd : ℤ) → count n (destroy fd) ≡ held n fd
unfolding destroy is_open
count-destroy n (pos m) = ground arith
count-destroy n (negsuc m) = ground arith

-- Where the descriptor `n` is.
abbrev pub places : ℕ → Objects → ℕ
places n s = count n s.objects + count n s.closed + count n s.released

abbrev pub made : ℕ → List Operation → ℕ
made n [] = 0
made n (construct fd ∷ ops) = held n fd + made n ops
made n (_ ∷ ops) = made n ops

-- What one operation adds.
abbrev made_by : ℕ → Operation → ℕ
made_by n (construct fd) = held n fd
made_by n (construct_from i) = 0
made_by n (assign_from i j) = 0
made_by n (release_object i) = 0
made_by n (destroy_object i) = 0

made_step :
    (n : ℕ) (op : Operation) (ops : List Operation) → made n (op ∷ ops) ≡ made_by n op + made n ops
made_step n (construct fd) ops = refl
made_step n (construct_from i) ops = omega arith
made_step n (assign_from i j) ops = omega arith
made_step n (release_object i) ops = omega arith
made_step n (destroy_object i) ops = omega arith

assigned-places :
    (n i j : ℕ) (s : Objects)
    → i < length s.objects
    → i ≢ j
    → places n (assigned i j (move_assign (object_at i s.objects) (object_at j s.objects)) s)
      ≡ places n s
unfolding move_assign
assigned-places n i j s h apart =
    let v = object_at j s.objects in
    let between = replace i v s.objects in
    let same = ap (held n) (object_at-replace i j v s.objects apart) in
    omega (
      arith,
      count-replace n i v s.objects h,
      count-emptied n j between,
      same,
      count-append n (destroy (object_at i s.objects)) s.closed,
      count-destroy n (object_at i s.objects),
    )

apply-places :
    (n : ℕ) (op : Operation) (s : Objects) → places n (apply op s) ≡ places n s + made_by n op
unfolding apply move_construct release
apply-places n (construct fd) s = omega (arith, count-append n s.objects (fd ∷ []))
apply-places n (construct_from i) s = omega (
  arith,
  count-append n (replace i no_fd s.objects) (object_at i s.objects ∷ []),
  count-emptied n i s.objects,
)
apply-places n (assign_from i j) s = ground (arith, assigned-places n i j s)
apply-places n (release_object i) s = omega (arith, count-emptied n i s.objects)
apply-places n (destroy_object i) s = omega (
  arith,
  count-emptied n i s.objects,
  count-append n (destroy (object_at i s.objects)) s.closed,
  count-destroy n (object_at i s.objects),
)

-- Each time a descriptor is given to an object, it is in one place from then on, whatever the
-- operations are: one object has it, or it was closed once, or it was released once.
pub apply_all-places :
    (n : ℕ) (ops : List Operation) (s : Objects)
    → places n (apply_all ops s) ≡ places n s + made n ops
unfolding apply_all
apply_all-places n [] s = omega arith
apply_all-places n (op ∷ ops) s =
    let step : made n (op ∷ ops) ≡ made_by n op + made n ops = made_step n op ops in
    omega (arith, apply_all-places n ops (apply op s), apply-places n op s, step)
