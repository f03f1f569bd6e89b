-- ===== src/HashWriter/Write/Safe.antt =====
-- What `sparkey_hash_write` does to the hash file.
use sparkey.Base.{
  ◌==◌, ==→eq, ℕ, List, [], ◌++◌, take, Bool, Bool-cases, true, false, Option, none, some, ◌≡◌, ◌≢◌,
  refl, sym, ap, ◌∙◌, All, ◌⊎◌, inl, inr, arith,
}
use mathlib.Core.Bool.{false≢true}
use sparkey.ReturnCode.{Errno, enoent, ReturnCode, file_closed, remove_returncode}
use sparkey.Exec.{Outcome, done, thrown, fault, out_of_fuel}
use sparkey.Compress.{Codecs}
use sparkey.File.{File, WriteResult, overwrite, write_full}
use sparkey.File.Overwrite.{overwrite_end}
use sparkey.File.Quiet.{IsRetried, IsServed, write_full-Calm}
use sparkey.Exec.Calm.{Calm-then, not_thrown}
use sparkey.LogWriter.Open.{is_enoent}
use sparkey.File.Write.{Writes-then, write_full-Writes}
use sparkey.HashHeader.{HashHeader}
use sparkey.LogHeader.{LogHeader}
use sparkey.LogReader.{LogReader}
use sparkey.HashHeader.Write.{
  hash_header_bytes, write_hashheader-Writes, write_hashheader-closed, write_hashheader-Calm,
}
use sparkey.HashWriter.{HashState}
use sparkey.HashWriter.Entries.{fill_table}
use sparkey.HashWriter.Write.{
  Environment, HashFile, untouched, removed, created, Ready, prepare, is_up_to_date, remove_failed,
  write_file, replace_file, finish, write_ready, stamped_header, hash_write,
}

-- The file is made, and holds all of `bytes`; or it is made and holds a first part of them, a write
-- fails for good, and so does the call; or it cannot be made, and the call fails.
pub data Output (creat : Bool) (answers : List WriteResult) (bytes : List ℕ)
    (result : Outcome (Unit {0}) × HashFile) : Type 0 where
  complete :
      (f : File)
      → creat ≡ true
      → result ≡ (done tt, created f)
      → f.contents ≡ bytes
      → Output creat answers bytes result
  partial :
      (code : ReturnCode) (f : File) (k : ℕ)
      → creat ≡ true
      → (All IsRetried answers → ⊥)
      → result ≡ (thrown code, created f)
      → f.contents ≡ take k bytes
      → Output creat answers bytes result
  missing :
      creat ≡ false → result ≡ (thrown file_closed, removed) → Output creat answers bytes result

overwrite_empty : (b : List ℕ) → overwrite [] 0 b ≡ b
overwrite_empty b = overwrite_end [] b 0 refl

write_file-Output :
    (creat : Bool) (answers : List WriteResult) (header : HashHeader) (t : List ℕ)
    → Output creat answers (hash_header_bytes header ++ t) (write_file creat answers header t)
unfolding write_file
write_file-Output true answers header t =
    let empty : File = record { contents = []; offset = 0; answers = answers } in
    elim ((Writes-then _ _ _ _ (write_hashheader-Writes header) (write_full-Writes t)).at empty
      (omega arith)) [
        | inl (left, e) ↦ complete _ refl (ap (λ r. (r.0, created r.1)) e) (overwrite_empty _)
        | inr (code, k, left, le, e) ↦
            let calm = Calm-then IsServed _ _ (write_hashheader-Calm header) (write_full-Calm t) in
            partial code _ k refl (λ served. not_thrown IsServed _ code _ (calm.at empty served) e)
              (ap (λ r. (r.0, created r.1)) e) (overwrite_empty _)
      ]
write_file-Output false answers header t =
    missing refl (ap (λ o. (o, removed)) (write_hashheader-closed header (write_full t)))

enoent_of : (e : Errno) → is_enoent e ≡ true → e ≡ enoent
unfolding is_enoent
enoent_of enoent h = refl
enoent_of _ h = absurd (false≢true h)

-- What `remove` leaves: the old file is gone, or there was none; or the call failed for another reason.
removal-cases :
    (o : Option Errno)
    → (((o ≡ none) ⊎ (o ≡ some enoent)) × (remove_failed o ≡ none))
      ⊎ ((e : Errno) × (o ≡ some e) × (e ≢ enoent) × (remove_failed o ≡ some e))
unfolding remove_failed is_enoent
removal-cases none = inl (inl refl, refl)
removal-cases (some e) = elim (Bool-cases (is_enoent e)) [
  | inl absent ↦ inl (inr (ap some (enoent_of e absent)), rw absent refl)
  | inr other ↦ inr (e, refl, λ same. false≢true (sym other ∙ ap is_enoent same), rw other refl)
]

-- There was a hash file to copy, of a log that ends where this one does.
abbrev pub IsCurrent : Option HashHeader → LogReader → Type 0
IsCurrent none log = ⊥
IsCurrent (some old) log = old.data_end ≡ log.header.data_end

is_up_to_date-cases :
    (o : Option HashHeader) (log : LogReader)
    → (IsCurrent o log × (is_up_to_date o log ≡ true))
      ⊎ ((IsCurrent o log → ⊥) × (is_up_to_date o log ≡ false))
unfolding is_up_to_date
is_up_to_date-cases none log = inr (λ k. k, refl)
is_up_to_date-cases (some old) log = elim (Bool-cases (old.data_end == log.header.data_end)) [
  | inl same ↦ inl (==→eq _ _ same, same)
  | inr other ↦ inr (ground (arith, other), other)
]

-- The header of the new file: of the version of this library, and with the identifier and the end of
-- the log.
abbrev pub header_for : LogHeader → HashHeader → HashHeader
header_for log header = record header {
  major_version = 1;
  minor_version = 1;
  file_identifier = log.file_identifier;
  data_end = log.data_end;
}

-- The code of an error, or what C leaves undefined; a loop that is not at its end is neither.
abbrev pub IsError : Outcome (Unit {0}) → Type 0
IsError (done u) = ⊥
IsError (thrown c) = Unit {0}
IsError (fault out_of_fuel) = ⊥
IsError (fault _) = Unit {0}

-- The same code of an error, or the same fault.
abbrev pub IsSameFailure : {A B : Type 0} → Outcome A → Outcome B → Type 0
IsSameFailure (done a) b = ⊥
IsSameFailure (thrown c) b = b ≡ thrown c
IsSameFailure (fault x) b = b ≡ fault x

module _ (codecs : Codecs) (times : ℕ → ℕ) (env : Environment) (rounds hash_size : ℕ) where
  -- The preparations came to `r`, and the hash file is not up to date.
  abbrev pub IsToWrite : Ready → Type 0
  IsToWrite r = ((prepare times env hash_size tt).0 ≡ done r) × (IsCurrent r.old r.log → ⊥)

  abbrev pub Fills : Ready → Outcome (Unit {0}) → HashState → Type 0
  Fills r o s = fill_table codecs r.log env.fill rounds r.start r.old r.state ≡ (o, s)

  -- What `sparkey_hash_write` comes to.
  pub data WriteEnds (result : Outcome (Unit {0}) × HashFile) : Type 0 where
    not_ready :
        (o : Outcome Ready)
        → (prepare times env hash_size tt).0 ≡ o
        → (a : Outcome (Unit {0})) → IsSameFailure o a
        → result ≡ (a, untouched)
        → WriteEnds result
    up_to_date :
        (r : Ready)
        → (prepare times env hash_size tt).0 ≡ done r
        → IsCurrent r.old r.log
        → result ≡ (done tt, untouched)
        → WriteEnds result
    not_filled :
        (r : Ready) (o : Outcome (Unit {0})) (s : HashState)
        → IsToWrite r
        → Fills r o s
        → IsError o
        → result ≡ (o, untouched)
        → WriteEnds result
    unfinished :
        (r : Ready) (s : HashState)
        → IsToWrite r
        → Fills r (fault out_of_fuel) s
        → result ≡ (fault out_of_fuel, untouched)
        → WriteEnds result
    not_removed :
        (r : Ready) (s : HashState) (e : Errno)
        → IsToWrite r
        → Fills r (done tt) s
        → env.remove ≡ some e
        → e ≢ enoent
        → result ≡ (thrown (remove_returncode e), untouched)
        → WriteEnds result
    replaces :
        (r : Ready) (s : HashState)
        → IsToWrite r
        → Fills r (done tt) s
        → (env.remove ≡ none) ⊎ (env.remove ≡ some enoent)
        → Output env.creat env.answers
            (hash_header_bytes (header_for r.log_header s.header) ++ s.hashtable)
            result
        → WriteEnds result

  finish-WriteEnds :
      (r : Ready) (o : Outcome (Unit {0})) (s : HashState)
      → IsToWrite r
      → Fills r o s
      → WriteEnds (finish env r.log_header (o, s))
  unfolding finish replace_file
  finish-WriteEnds r (done u) s ready filled = elim (removal-cases env.remove) [
    | inl (gone, e) ↦ rw e (
        replaces r s ready filled gone (
          write_file-Output env.creat env.answers (stamped_header r.log_header s.header)
            s.hashtable))
    | inr (code, failed, other, e) ↦ rw e (not_removed r s code ready filled failed other refl)
  ]
  finish-WriteEnds r (thrown c) s ready filled = not_filled r (thrown c) s ready filled tt refl
  finish-WriteEnds r (fault out_of_fuel) s ready filled = unfinished r s ready filled refl
  finish-WriteEnds r (fault x) s ready filled = not_filled r (fault x) s ready filled tt refl

  write_ready-WriteEnds :
      (o : Outcome Ready)
      → (prepare times env hash_size tt).0 ≡ o
      → WriteEnds (write_ready codecs env rounds o)
  unfolding write_ready
  write_ready-WriteEnds (thrown c) ready = not_ready (thrown c) ready (thrown c) refl refl
  write_ready-WriteEnds (fault x) ready = not_ready (fault x) ready (fault x) refl refl
  write_ready-WriteEnds (done r) ready = elim (is_up_to_date-cases r.old r.log) [
    | inl (current, same) ↦ rw same (up_to_date r ready current refl)
    | inr (older, not_same) ↦ rw not_same (finish-WriteEnds r _ _ (ready, older) refl)
  ]

  -- What `sparkey_hash_write` does to the hash file, whatever the system answers. Where the preparations
  -- fail, the call gives their code or fault; where the hash file is up to date, the call returns; where
  -- an error or a fault stops the filling of the table from the log, the call gives that; and where
  -- `remove` fails, but not with ENOENT, the call returns its code. In these cases the hash file is not
  -- touched, and it is not touched either as long as a loop of the filling is not at its end after the
  -- rounds it is given. Else the old file is gone: the new one holds the header and the whole table, and the
  -- call returns; or a write failed for good, it holds a first part of them, and the call returns
  -- the code of an error; or it could not be made, and the call returns SPARKEY_FILE_CLOSED.
  pub hash_write-WriteEnds : WriteEnds (hash_write codecs times env rounds hash_size)
  unfolding hash_write
  hash_write-WriteEnds = write_ready-WriteEnds _ refl
