-- ===== src/Files/Walk.antt =====
-- Walking the file system: internal/collectors/fs/scanner.go, over `filepath.WalkDir`.
use truespec_agent.Prelude.{
  ℕ, suc, Bool, true, false, Option, none, some, List, [], ◌∷◌, ◌++◌, String, if◌then◌else◌,
}
use truespec_agent.Prelude.Int.{ℤ}

pub record Info : Type 0 where
  pub size : ℕ
  pub mode : ℕ
  pub mod_time : ℤ

-- What `fs.DirEntry` tells of an entry; `Info` may fail.
pub record Meta : Type 0 where
  pub name : String
  pub kind : String
  pub info : Option Info

-- A directory may be unreadable; then its entries are not seen.
mutual
  pub data Entry : Type 0 where
    plain : Meta → Entry
    folder : Meta → Bool → Entries → Entry

  pub data Entries : Type 0 where
    nil : Entries
    cons : Entry → Entries → Entries

-- A call of the function that is given to `WalkDir`: with an entry, or with an error.
pub data Visit : Type 0 where
  seen : String → Meta → Bool → Visit
  failed : String → Visit

abbrev pub entry_name : Entry → String
entry_name (plain m) = m.name
entry_name (folder m readable es) = m.name

-- `join` is `filepath.Join`.
module _ (join : String → String → String) where
  -- The calls that `WalkDir` makes, in order, as package filepath documents them. The entry stands
  -- at the path given.
  unfoldable mutual
    pub visits : Entry → String → List Visit
    visits (plain m) path = seen path m false ∷ []
    visits (folder m readable es) path =
        let below = visits_below es path in
        seen path m true ∷ (if readable then below else failed path ∷ [])

    pub visits_below : Entries → String → List Visit
    visits_below nil path = []
    visits_below (cons e es) path = visits e (join path (entry_name e)) ++ visits_below es path

  -- From a root; one that is not there is an error.
  unfoldable pub walk_dir : String → Option Entry → List Visit
  unfolding visits
  walk_dir root none = failed root ∷ []
  walk_dir root (some e) = visits e root

-- `Node`, as `ScanOS` sends it.
pub record ScannedNode : Type 0 where
  pub path : String
  pub name : String
  pub is_dir : Bool
  pub size : ℕ
  pub type : String

abbrev pub scanned : String → Meta → Bool → ScannedNode
scanned path m is_dir = record {
  path = path;
  name = m.name;
  is_dir = is_dir;
  size = if is_dir then 0 else elim m.info [ none ↦ 0 | some i ↦ i.size ];
  type = m.kind;
}

-- The function that `ScanOS` gives to `WalkDir`, at each call. The first argument says whether the
-- context is done when it is asked for the time of that number. Also returned is the next number.
unfoldable pub scan_visits : (ℕ → Bool) → ℕ → List Visit → List ScannedNode × ℕ
scan_visits done i [] = ([], i)
scan_visits done i (failed path ∷ vs) = scan_visits done i vs
scan_visits done i (seen path m is_dir ∷ vs) =
    let (nodes, last) = scan_visits done (suc i) vs in
    if done i then ([], suc i) else (scanned path m is_dir ∷ nodes, last)

-- `ScanOS`, with what is at each root.
unfoldable pub scan_os :
    (String → String → String) → (ℕ → Bool) → ℕ → List (String × Option Entry) → List ScannedNode
unfolding scan_visits walk_dir
scan_os join done i [] = []
scan_os join done i ((root, e) ∷ roots) =
    let (nodes, next) = scan_visits done i (walk_dir join root e) in
    nodes ++ scan_os join done next roots
