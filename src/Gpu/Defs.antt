-- ===== src/Gpu/Defs.antt =====
-- internal/collectors/gpu: the cards that the platform lists, with what nvidia-smi prints of them.
use truespec_agent.Prelude.{
  ℕ, zero, suc, ◌+◌, ◌-◌, ◌*◌, ◌/◌, ◌%◌, ◌^◌, leb, Bool, false, ◌&&◌, ◌||◌, Option, none, some,
  List, [], ◌∷◌, map, length, if◌then◌else◌,
}
use truespec_agent.Prelude.Int.{pos, negsuc}
use truespec_agent.Prelude.Word.{wrap64}
use truespec_agent.Text.{Text, codes, same_text, trim_space, contains, split}

pub record GpuInfo : Type 0 where
  pub index : ℕ
  pub name : Text
  pub vendor : Text
  pub vram_total_mb : ℕ
  pub vram_used_mb : ℕ
  pub driver : Text
  pub bus_id : Text
  pub integrated : Bool

abbrev pub is_digit : ℕ → Bool
is_digit c = leb 48 c && leb c 57

-- The loop of `parseUint`, in 64 bits.
unfoldable pub parse_digits : ℕ → Text → ℕ
parse_digits v [] = v
parse_digits v (c ∷ s) = parse_digits (if is_digit c then (v * 10 + (c - 48)) % 2 ^ 64 else v) s

-- `parseUint`
unfoldable pub parse_uint : Text → ℕ
unfolding parse_digits
parse_uint s = parse_digits 0 (trim_space s)

-- `enrichNvidia`; `out` is what nvidia-smi prints, if it runs.
unfoldable pub enrich_nvidia : Option Text → GpuInfo → GpuInfo
unfolding parse_uint
enrich_nvidia none gpu = gpu
enrich_nvidia (some out) gpu = elim (split b',' (trim_space out)) [
  | total ∷ used ∷ driver ∷ _ ↦ record gpu {
    vram_total_mb = parse_uint total;
    vram_used_mb = parse_uint used;
    driver = trim_space driver;
  }
  | _ ↦ gpu
]

-- The change of the card at an index; `none` is the panic of an index out of range.
abbrev pub update_at : ℕ → (GpuInfo → GpuInfo) → List GpuInfo → Option (List GpuInfo)
update_at i f [] = none
update_at zero f (g ∷ gs) = some (f g ∷ gs)
update_at (suc i) f (g ∷ gs) = elim (update_at i f gs) [ none ↦ none | some gs' ↦ some (g ∷ gs') ]

-- The fields of a line, as `enrichNvidiaAll` writes them to a card.
abbrev pub with_fields : Text → Text → Text → Text → Text → GpuInfo → GpuInfo
with_fields name bus_id total used driver gpu = record gpu {
  name = trim_space name;
  bus_id = trim_space bus_id;
  vram_total_mb = parse_uint total;
  vram_used_mb = parse_uint used;
  driver = trim_space driver;
}

-- A line of `enrichNvidiaAll`; `none` is the panic of an index out of range. The index is an `int`.
unfoldable pub enrich_fields : List Text → List GpuInfo → Option (List GpuInfo)
enrich_fields (index ∷ name ∷ bus_id ∷ total ∷ used ∷ driver ∷ _) gpus =
    elim (wrap64 (pos (parse_uint index))) [
      | negsuc _ ↦ none
      | pos i ↦
          if leb (length gpus) i
          then some gpus
          else update_at i (with_fields name bus_id total used driver) gpus
    ]
enrich_fields _ gpus = some gpus

unfoldable pub enrich_lines : List Text → List GpuInfo → Option (List GpuInfo)
unfolding enrich_fields
enrich_lines [] gpus = some gpus
enrich_lines (line ∷ lines) gpus = elim (enrich_fields (split b',' line) gpus) [
  | none ↦ none
  | some gpus' ↦ enrich_lines lines gpus'
]

-- `enrichNvidiaAll`, which nothing calls.
unfoldable pub enrich_nvidia_all : Option Text → List GpuInfo → Option (List GpuInfo)
unfolding enrich_lines
enrich_nvidia_all none gpus = some gpus
enrich_nvidia_all (some out) gpus = enrich_lines (split 10 (trim_space out)) gpus

-- A card as ghw lists it.
pub record Card : Type 0 where
  pub product : Text
  pub vendor : Text

abbrev pub of_card : Card → GpuInfo
of_card card = record {
  index = 0;
  name = card.product;
  vendor = card.vendor;
  vram_total_mb = 0;
  vram_used_mb = 0;
  driver = [];
  bus_id = [];
  integrated = false;
}

-- A row of Win32_VideoController.
pub record VideoController : Type 0 where
  pub name : Text
  pub adapter_ram : ℕ
  pub driver_version : Text
  pub pnp_device_id : Text

-- `lower` is `unicode.ToLower`.
module _ (lower : ℕ → ℕ) where
  -- The cards on Linux, with the output of nvidia-smi for each NVIDIA card, by its position.
  unfoldable pub linux_gpus : ℕ → (ℕ → Option Text) → List Card → List GpuInfo
  unfolding enrich_nvidia
  linux_gpus i smi [] = []
  linux_gpus i smi (card ∷ cards) =
      let gpu = of_card card in
      (if contains (codes "nvidia") (map lower card.vendor) then enrich_nvidia (smi i) gpu else gpu)
      ∷ linux_gpus (suc i) smi cards

  -- `detectVendor`
  unfoldable pub detect_vendor : Text → Text
  detect_vendor name =
      let n = map lower name in
      if contains (codes "nvidia") n
      then codes "NVIDIA"
      else if contains (codes "amd") n || contains (codes "radeon") n
      then codes "AMD"
      else if contains (codes "intel") n
      then codes "Intel"
      else if contains (codes "apple") n
      then codes "Apple"
      else codes "Unknown"

  unfoldable pub is_integrated : Text → Bool
  is_integrated vendor =
      let v = map lower vendor in same_text v (codes "intel") || same_text v (codes "apple")

  -- The cards on Windows, numbered from the first argument.
  unfoldable pub windows_gpus : ℕ → List VideoController → List GpuInfo
  unfolding detect_vendor is_integrated
  windows_gpus i [] = []
  windows_gpus i (c ∷ cs) =
      let vendor = detect_vendor c.name in
      record {
        index = i;
        name = c.name;
        vendor = vendor;
        vram_total_mb = c.adapter_ram / 1024 / 1024;
        vram_used_mb = 0;
        driver = c.driver_version;
        bus_id = c.pnp_device_id;
        integrated = is_integrated vendor;
      }
      ∷ windows_gpus (suc i) cs

  unfoldable pub contains_fold : Text → Text → Bool
  contains_fold s sub = contains (map lower sub) (map lower s)

-- The cards on macOS.
unfoldable pub darwin_gpus : List Card → List GpuInfo
darwin_gpus [] = []
darwin_gpus (card ∷ cards) = of_card card ∷ darwin_gpus cards
