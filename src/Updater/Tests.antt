-- ===== src/Updater/Tests.antt =====
-- An update (internal/updater/updater.go), and the theorems at concrete inputs.
use truespec_agent.Prelude.{
  ◌≡◌, ◌⊎◌, refl, ap, subst, false, none, some, [], ◌∷◌, ok, Result, Option, ◌<>◌,
}
use truespec_agent.Host.{Host, lookup, read_file}
use truespec_agent.Host.{move}
use truespec_agent.Identity.Tests.{empty_host}
use truespec_agent.Updater.Defs.{UpdateMetadata, Updater, UpdateServer, Platform, whole, remove}
use truespec_agent.Updater.Ops.{
  UpdateError, temp_file, check_for_update, copy_body, swap, rollback, perform_update,
}
use truespec_agent.Updater.Install.{KeepsOld, rollback-swap}
use truespec_agent.Updater.Apply.{IsApart}
use truespec_agent.Updater.Perform.{IsUpdated, perform_update_safe}

abbrev linux_box : Platform
linux_box = record {
  os = "linux";
  arch = "amd64";
  executable = some "/usr/bin/agent";
  temp_dir = "/tmp";
  join = λ dir name. dir <> "/" <> name;
  sha256 = λ bytes. elim bytes [ [] ↦ "none" | _ ∷ _ ↦ "some" ];
  rename_fails = λ p q. false;
  remove_fails = λ p. false;
}

abbrev release : UpdateMetadata
release = record {
  version = "1.1.0";
  release_date = "";
  channel = "stable";
  download_url = "https://api/agent";
  checksum = "some";
  signature = "";
  changelog = "";
  mandatory = false;
}

abbrev update_server : UpdateServer
update_server = record {
  create_fails = λ url. false;
  metadata_at = λ url. some (200, some release);
  binary_at = λ url. some (200, whole (2 ∷ []));
}

abbrev updater : Updater
updater = record { api_base_url = "https://api"; current_version = "1.0.0" }

abbrev box : Host
box = record empty_host { files = ("/usr/bin/agent", 1 ∷ []) ∷ ("/tmp/new", 2 ∷ []) ∷ [] }

abbrev offered_by : Result UpdateError (Option UpdateMetadata) → UpdateMetadata
offered_by (ok (some md)) = md
offered_by _ = release

updated :
    (perform_update linux_box update_server updater box).1.files
    ≡ ("/tmp/new", 2 ∷ []) ∷ ("/usr/bin/agent.old", 1 ∷ []) ∷ ("/usr/bin/agent", 2 ∷ []) ∷ []
unfolding perform_update copy_body read_file remove move
updated = refl

perform_update_safe_example :
    KeepsOld linux_box "/usr/bin/agent" box (perform_update linux_box update_server updater box).1
    ⊎ IsUpdated linux_box update_server updater "/usr/bin/agent" box
        (perform_update linux_box update_server updater box).1
unfolding check_for_update
perform_update_safe_example =
    perform_update_safe linux_box "/usr/bin/agent" update_server updater box refl refl
      (λ md offered.
        subst (λ m. IsApart linux_box "/usr/bin/agent" (temp_file linux_box m))
          (ap offered_by offered) (refl, refl, refl))

rollback-swap_example :
    ((rollback linux_box (swap linux_box "/usr/bin/agent" "/tmp/new" box).1).0 ≡ none)
    × (lookup "/usr/bin/agent"
          (rollback linux_box (swap linux_box "/usr/bin/agent" "/tmp/new" box).1).1.files
        ≡ lookup "/usr/bin/agent" box.files)
unfolding swap move
rollback-swap_example =
    rollback-swap linux_box "/usr/bin/agent" box "/tmp/new" refl refl refl refl refl refl refl
