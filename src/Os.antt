-- ===== src/Os.antt =====
-- The calls of the operating system that the collectors of src/system_metrics.cpp make on files:
-- a parameter, with what POSIX says of descriptors as laws.
pub mod Descriptors
use time_agent.Base.{ℕ, Bool, false, not, ◌&&◌, ◌||◌, ◌≡◌, Option, none, some, Bytes, ◌==◌}

pub record Os : Type 1 where
  pub World : Type 0
  -- `none` for -1.
  pub open_file : World → Bytes → Option ℕ × World
  pub close_file : World → ℕ → World
  -- At most this many bytes from the start of the file; `none` for -1.
  pub pread : World → ℕ → ℕ → Option Bytes
  pub is_open : World → ℕ → Bool

pub record IsPosix (os : Os) : Type 0 where
  pub open_none :
      (w : os.World) (path : Bytes) (fd : ℕ)
      → (os.open_file w path).0 ≡ none
      → os.is_open (os.open_file w path).1 fd ≡ os.is_open w fd
  pub open_some :
      (w : os.World) (path : Bytes) (new fd : ℕ)
      → (os.open_file w path).0 ≡ some new
      → os.is_open (os.open_file w path).1 fd ≡ (fd == new || os.is_open w fd)
  pub open_fresh :
      (w : os.World) (path : Bytes) (new : ℕ)
      → (os.open_file w path).0 ≡ some new
      → os.is_open w new ≡ false
  pub close_shuts :
      (w : os.World) (old fd : ℕ)
      → os.is_open (os.close_file w old) fd ≡ (not (fd == old) && os.is_open w fd)

module _ (os : Os) where
  -- `if (fd != -1) ::close(fd);`
  abbrev pub close_fd : os.World → Option ℕ → os.World
  close_fd w none = w
  close_fd w (some fd) = os.close_file w fd
