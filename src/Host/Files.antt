-- ===== src/Host/Files.antt =====
-- Files by path, as package os reads and writes them. Directories are not kept: whether one can
-- be made is an input. The failures of the calls are given by the paths at which they happen.
use truespec_agent.Prelude.{
  Bool, true, false, not, ◌&&◌, Option, none, some, List, [], ◌∷◌, String, str_eq, Result, ok, err,
  if◌then◌else◌,
}
use truespec_agent.Buffer.{Bytes, WriteOutcome, done, not_opened, short, take_bytes}

pub record Host : Type 0 where
  pub files : List (String × Bytes)
  -- the answers of `os.Getenv` and `os.Hostname`, and the path separator of the platform
  pub getenv : String → String
  pub hostname : String
  pub windows : Bool
  -- at which paths a call fails
  pub read_fails : String → Bool
  pub stat_fails : String → Bool
  pub mkdir_fails : String → Bool
  pub write_outcome : String → WriteOutcome

module _ {ℓ} {V : Type ℓ} where
  abbrev pub lookup : String → List (String × V) → Option V
  lookup k [] = none
  lookup k ((j, v) ∷ m) = if str_eq j k then some v else lookup k m

  abbrev pub insert : String → V → List (String × V) → List (String × V)
  insert k v [] = (k, v) ∷ []
  insert k v ((j, w) ∷ m) = if str_eq j k then (k, v) ∷ m else (j, w) ∷ insert k v m

  abbrev pub delete : String → List (String × V) → List (String × V)
  delete k [] = []
  delete k ((j, v) ∷ m) = if str_eq j k then delete k m else (j, v) ∷ delete k m

pub data ReadError : Type 0 where
  not_exist other_error : ReadError

-- `os.ReadFile`
unfoldable pub read_file : Host → String → Result ReadError Bytes
read_file h path = elim (lookup path h.files) [
  | none ↦ err not_exist
  | some bytes ↦ if h.read_fails path then err other_error else ok bytes
]

-- `os.WriteFile`; true if it succeeds.
unfoldable pub write_path : String → Bytes → Host → Bool × Host
write_path path bytes h = elim (h.write_outcome path) [
  | done ↦ (true, record h { files = insert path bytes h.files })
  | not_opened ↦ (false, h)
  | short n ↦ (false, record h { files = insert path (take_bytes n bytes) h.files })
]

-- The test `os.IsNotExist` on the error of `os.Stat`: another error is not taken for it.
unfoldable pub is_missing : Host → String → Bool
is_missing h path =
    not (h.stat_fails path) && elim (lookup path h.files) [ none ↦ true | some _ ↦ false ]

-- `os.Rename`, which fails where the first argument says; true if it succeeds.
unfoldable pub move : (String → String → Bool) → String → String → Host → Bool × Host
move fails p q h = elim (lookup p h.files) [
  | none ↦ (false, h)
  | some bytes ↦
      if fails p q
      then (false, h)
      else (true, record h { files = insert q bytes (delete p h.files) })
]

-- `os.Remove`, which fails where the first argument says; `none` stands for no error.
unfoldable pub unlink : (String → Bool) → String → Host → Option ReadError × Host
unlink fails p h = elim (lookup p h.files) [
  | none ↦ (some not_exist, h)
  | some _ ↦
      if fails p then (some other_error, h) else (none, record h { files = delete p h.files })
]
