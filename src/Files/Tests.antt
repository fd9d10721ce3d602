-- ===== src/Files/Tests.antt =====
-- Runs of the file operations (internal/collectors/fs), and the theorems at concrete inputs.
use truespec_agent.Prelude.{
  str_eq, if◌then◌else◌, length, ℕ, leb, ◌≡◌, ◌↔◌, ◌<>◌, refl, Bool, true, false, Option, none,
  some, List, [], ◌∷◌, String, map, In, arith,
}
use truespec_agent.Prelude.Int.{pos}
use truespec_agent.Buffer.{done, short}
use truespec_agent.Host.{Host, lookup, unlink, move}
use truespec_agent.Identity.Tests.{empty_host}
use truespec_agent.Text.{Text, codes, contains}
use truespec_agent.Files.Ops.{Refusals, move_file}
use truespec_agent.Files.Moving.{Moves, move_file-Moves}
use truespec_agent.Files.Ignoring.{ignored, should_ignore, get_roots, Includes, should_ignore_iff}
use truespec_agent.Files.Walk.{
  Info, Meta, Entry, plain, folder, Entries, nil, cons, visits, walk_dir, scan_os,
}
use truespec_agent.Files.Tree.{Built, root_node, tree_node, place_all, build_fs_tree}
use truespec_agent.Files.Scanning.{all_nodes, IsPrefix, scan_os-IsPrefix}

-- No file can be renamed, and a copy is cut off after two bytes.
abbrev refusals : Refusals
refusals = record { rename_fails = λ p q. true; remove_fails = λ p. false }

abbrev host : Host
host = record empty_host {
  files = ("/a", 1 ∷ 2 ∷ 3 ∷ []) ∷ ("/b", 4 ∷ []) ∷ [];
  write_outcome = λ p. short 2;
}

-- A failed move destroys what the new path had before.
clobbered : lookup "/b" (move_file refusals "/a" "/b" host).1.files ≡ some (1 ∷ 2 ∷ [])
unfolding move_file move
clobbered = refl

-- A move onto the same path, where the rename fails, leaves no file at all.
moved_onto_itself :
    (move_file refusals "/a" "/a" (record host { write_outcome = λ p. done })).1.files
    ≡ ("/b", 4 ∷ []) ∷ []
unfolding move_file move unlink
moved_onto_itself = refl

move_file-Moves_example : Moves "/a" "/b" (1 ∷ 2 ∷ 3 ∷ []) (move_file refusals "/a" "/b" host)
move_file-Moves_example = move_file-Moves refusals "/a" "/b" (1 ∷ 2 ∷ 3 ∷ []) host refl refl

-- A directory of a user that is passed over.
passed_over : should_ignore (λ c. c) (codes "/home/user/development") ≡ true
unfolding should_ignore contains
passed_over = refl

-- On Windows the root is that of Unix.
windows_roots : get_roots "windows" (λ drive. true) ≡ codes "/" ∷ []
unfolding get_roots
windows_roots = refl

should_ignore_iff_example :
    (should_ignore (λ c. c) (codes "/srv/systems") ≡ true)
    ↔ ((ig : Text) × In ig ignored × Includes ig (map (λ c. c) (codes "/srv/systems")))
should_ignore_iff_example = should_ignore_iff (λ c. c) (codes "/srv/systems")

abbrev about : String → Meta
about name = record {
  name = name;
  kind = "-";
  info = some (record { size = 5; mode = 420; mod_time = pos 0 });
}

abbrev root : Entry
root =
    folder (about "/") true (cons (folder (about "etc") false nil) (cons (plain (about "x")) nil))

abbrev join : String → String → String
join p n = p <> "/" <> n

-- The context is done at the third entry.
abbrev at_third : ℕ → Bool
at_third i = leb 2 i

abbrev roots : List (String × Option Entry)
roots = ("/", some root) ∷ ("/missing", none) ∷ []

two_sent : length (scan_os join at_third 0 roots) ≡ 2
unfolding scan_os
two_sent = refl

scan_os-IsPrefix_example : IsPrefix (scan_os join at_third 0 roots) (all_nodes join roots)
scan_os-IsPrefix_example = scan_os-IsPrefix join at_third 0 roots λ i late. ground arith

abbrev tree_root : Entry
tree_root =
    folder (about "r") true
      (cons (folder (about "a") true (cons (plain (about "x")) nil)) (cons (plain (about "y")) nil))

abbrev below_root : Entries
below_root =
    cons (folder (about "a") true (cons (plain (about "x")) nil)) (cons (plain (about "y")) nil)

-- `filepath.Dir` at these paths.
abbrev dir : String → String
dir q = if str_eq q "/r/a/x" then "/r/a" else "/r"

abbrev base : String → String
base p = "r"

abbrev about_info : Info
about_info = record { size = 5; mode = 420; mod_time = pos 0 }

four_nodes :
    build_fs_tree base dir join "/r" (some tree_root)
    ≡ some (record {
      nodes =
          record (root_node base "/r") { children = 1 ∷ 3 ∷ [] }
          ∷ record (tree_node "/r/a" (about "a") true about_info) { children = 2 ∷ [] }
          ∷ tree_node "/r/a/x" (about "x") false about_info
          ∷ tree_node "/r/y" (about "y") false about_info
          ∷ [];
      node_map = ("/r", 0) ∷ ("/r/a", 1) ∷ [];
    })
unfolding build_fs_tree walk_dir visits place_all
four_nodes = refl

abbrev count_nodes : Option Built → ℕ
count_nodes none = 0
count_nodes (some b) = length b.nodes

abbrev join_clean : String → String → String
join_clean p n = if str_eq p "/r/" then "/r/" <> n else join p n

-- A root with a slash at its end, which `filepath.Dir` never gives back, has no children.
slash_loses_all : count_nodes (build_fs_tree base dir join_clean "/r/" (some tree_root)) ≡ 1
unfolding build_fs_tree walk_dir visits place_all
slash_loses_all = refl

-- An entry that vanishes before its information is read.
vanished :
    build_fs_tree base dir join "/r"
      (some (folder (about "r") true (cons (plain (record (about "x") { info = none })) nil)))
    ≡ none
unfolding build_fs_tree walk_dir visits place_all
vanished = refl
