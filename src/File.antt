-- ===== src/File.antt =====
-- The part of `std::fs` that the storage code uses: one open file, with positional reads and
-- writes, `set_len` and `sync`. A call takes its outcome from the file's list of fates, so every
-- way in which calls can fail is a list; past its end calls succeed.
pub mod Laws
use oxen_db.Prelude.{
  ℕ, zero, suc, ◌+◌, ◌-◌, Option, none, some, List, [], ◌∷◌, ◌++◌, length, take, drop, slice,
  replicate, ltb, if◌then◌else◌, Result, ok, err, io,
}
use oxen_db.Prelude.Op.{Op}

-- `fail n` is an I/O error; a write that fails has stored its first `n` bytes.
pub data Fate : Type 0 where
  done : Fate
  fail : ℕ → Fate

pub record File : Type 0 where
  pub contents : List ℕ
  -- the contents at the last successful sync
  pub synced : List ℕ
  pub fates : List Fate

-- A write at an offset; the file grows, and a gap before the offset reads as zeros.
unfoldable pub write_at : ℕ → List ℕ → List ℕ → List ℕ
write_at zero src bs = src ++ drop (length src) bs
write_at (suc at) src [] = 0 ∷ write_at at src []
write_at (suc at) src (b ∷ bs) = b ∷ write_at at src bs

unfoldable pub resize : ℕ → List ℕ → List ℕ
resize n bs = take n bs ++ replicate (n - length bs) 0

unfoldable pub next_fate : List Fate → Fate × List Fate
next_fate [] = (done, [])
next_fate (f ∷ fs) = (f, fs)

-- A call that changes the contents: wholly, or in part when it fails.
unfoldable pub attempt : (Option ℕ → List ℕ → List ℕ) → Fate × List Fate → Op File (Unit {0})
attempt change (done, rest) f =
    (ok tt, record f { contents = change none f.contents; fates = rest })
attempt change (fail n, rest) f =
    (err io, record f { contents = change (some n) f.contents; fates = rest })

unfoldable pub written : List ℕ → ℕ → Option ℕ → List ℕ → List ℕ
written src at none bs = write_at at src bs
written src at (some n) bs = write_at at (take n src) bs

unfoldable pub write_all_at : List ℕ → ℕ → Op File (Unit {0})
unfolding attempt written next_fate
write_all_at src at f = attempt (written src at) (next_fate f.fates) f

unfoldable pub resized : ℕ → Option ℕ → List ℕ → List ℕ
resized n none bs = resize n bs
resized n (some _) bs = bs

unfoldable pub set_len : ℕ → Op File (Unit {0})
unfolding attempt resized next_fate
set_len n f = attempt (resized n) (next_fate f.fates) f

unfoldable pub sync_with : Fate × List Fate → Op File (Unit {0})
sync_with (done, rest) f = (ok tt, record f { synced = f.contents; fates = rest })
sync_with (fail n, rest) f = (err io, record f { fates = rest })

-- `sync_all`, and `sync_data`
unfoldable pub sync : Op File (Unit {0})
unfolding sync_with next_fate
sync f = sync_with (next_fate f.fates) f

unfoldable pub read_with : {A : Type 0} → (List ℕ → Result A) → Fate × List Fate → Op File A
read_with read (done, rest) f = (read f.contents, record f { fates = rest })
read_with read (fail n, rest) f = (err io, record f { fates = rest })

unfoldable pub exactly : ℕ → ℕ → List ℕ → Result (List ℕ)
exactly n at bs = if ltb (length bs) (at + n) then err io else ok (slice at n bs)

-- `read_exact_at`: an end of file within the range is an error.
unfoldable pub read_exact_at : ℕ → ℕ → Op File (List ℕ)
unfolding read_with exactly next_fate
read_exact_at n at f = read_with (exactly n at) (next_fate f.fates) f

unfoldable pub read_to_end : Op File (List ℕ)
unfolding read_with next_fate
read_to_end f = read_with (λ bs. ok bs) (next_fate f.fates) f

unfoldable pub file_len : Op File ℕ
unfolding read_with next_fate
file_len f = read_with (λ bs. ok (length bs)) (next_fate f.fates) f

-- `File::open(parent)?.sync_all()?`: it changes nothing that the model sees, and can fail.
unfoldable pub sync_parent_dir : Op File (Unit {0})
unfolding read_with next_fate
sync_parent_dir f = read_with (λ _. ok tt) (next_fate f.fates) f

-- A new, empty file, for which `fates` lies ahead.
abbrev pub empty_file : List Fate → File
empty_file fates = record { contents = []; synced = []; fates = fates }

-- `OpenOptions::open` of a file that exists: another handle on the same contents.
unfoldable pub reopen : Op File (Unit {0})
unfolding read_with next_fate
reopen f = read_with (λ _. ok tt) (next_fate f.fates) f
