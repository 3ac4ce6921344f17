-- ===== src/Fd.antt =====
-- src/fd.cpp: `FileDescriptor`, the owner of one descriptor of the process.
pub mod Ownership
use Prim.Native.Nat.{bit_or}
use redix.Prelude.{ℕ, Bool, Option, none, some, List, [], ◌∷◌, ◌++◌, if◌then◌else◌, Bytes, codes}
use redix.Prelude.Int.{ℤ, pos, negsuc, ltb_ℤ, leb_ℤ}

-- An object is the value of its `fd_`.
abbrev pub FileDescriptor : Type 0
FileDescriptor = ℤ

-- -1
abbrev pub no_fd : FileDescriptor
no_fd = negsuc 0

-- `operator bool`
unfoldable pub is_open : FileDescriptor → Bool
is_open fd = leb_ℤ (pos 0) fd

-- The descriptors that the destructor passes to `close`.
unfoldable pub destroy : FileDescriptor → List ℤ
unfolding is_open
destroy fd = if is_open fd then fd ∷ [] else []

-- The new object, and what the move leaves in `other`.
unfoldable pub move_construct : FileDescriptor → FileDescriptor × FileDescriptor
move_construct other = (other, no_fd)

-- `self = std::move(other)` for two objects: both, and what is closed.
unfoldable pub move_assign :
    FileDescriptor → FileDescriptor → FileDescriptor × FileDescriptor × List ℤ
unfolding destroy
move_assign self other = (other, no_fd, destroy self)

-- The result, and what is left in the object.
unfoldable pub release : FileDescriptor → ℤ × FileDescriptor
release fd = (fd, no_fd)

-- `set_nonblocking`, with what `fcntl` returns for each call, the value of `O_NONBLOCK` and the text
-- of `errno`. No text is a success.
unfoldable pub set_nonblocking : FileDescriptor → ℤ → (ℕ → ℤ) → ℕ → Bytes → Option Bytes
set_nonblocking fd getfl setfl o_nonblock strerror =
    if ltb_ℤ fd (pos 0) then some (codes "Invalid file descriptor") else elim getfl [
      | negsuc n ↦ some (codes "fcntl(F_GETFL): " ++ strerror)
      | pos flags ↦
          if ltb_ℤ (setfl (bit_or flags o_nonblock)) (pos 0)
          then some (codes "fcntl(F_SETFL): " ++ strerror)
          else none
    ]
