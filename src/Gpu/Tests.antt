-- ===== src/Gpu/Tests.antt =====
-- Tests of the gpu collector (internal/collectors/gpu), and the properties at concrete inputs.
use truespec_agent.Prelude.{◌%◌, ◌^◌, ◌≡◌, refl, arith, none, some, [], ◌∷◌}
use truespec_agent.Prelude.Word.{wrap64}
use truespec_agent.Text.{Text, codes, is_space, trim_space, split, contains}
use truespec_agent.Gpu.Defs.{
  GpuInfo, of_card, parse_digits, parse_uint, enrich_nvidia, enrich_fields, enrich_lines,
  enrich_nvidia_all, detect_vendor,
}
use truespec_agent.Gpu.Parsing.{
  digits, value, parse_uint-value, decimal_text, parse_uint-decimal_text,
}

abbrev card : GpuInfo
card = of_card (record { product = codes "GA102"; vendor = codes "NVIDIA Corporation" })

abbrev fine_output : Text
fine_output = codes "0, RTX 3080, 0000:01, 10240 MiB, 512 MiB, 550.54"

-- The index is 2^63.
abbrev wild_output : Text
wild_output = codes "9223372036854775808, RTX, 00, 1, 1, 5"

-- The index is written with a sign, which is skipped.
signed_index : parse_uint (codes "-12") ≡ 12
unfolding parse_uint parse_digits is_space
signed_index = refl

enriches_first_card :
    enrich_nvidia (some (codes "8192 MiB, 4 MiB, 550")) card
    ≡ record card { vram_total_mb = 8192; vram_used_mb = 4; driver = codes "550" }
unfolding enrich_nvidia parse_uint parse_digits split is_space
enriches_first_card = refl

fine_output_kept :
    enrich_nvidia_all (some fine_output) (card ∷ [])
    ≡ some (
        record card {
          name = codes "RTX 3080";
          bus_id = codes "0000:01";
          vram_total_mb = 10240;
          vram_used_mb = 512;
          driver = codes "550.54";
        }
        ∷ [])
unfolding enrich_nvidia_all enrich_lines enrich_fields parse_uint parse_digits split is_space wrap64
fine_output_kept = refl

wild_output_panics : enrich_nvidia_all (some wild_output) (card ∷ []) ≡ none
unfolding enrich_nvidia_all enrich_lines enrich_fields parse_uint parse_digits split is_space wrap64
wild_output_panics = refl

-- `strings.Contains` of the lower-case name: a vendor of AMD is found in a name with "amd".
vendor_found : detect_vendor (λ c. c) (codes "camden graphics") ≡ codes "AMD"
unfolding detect_vendor contains
vendor_found = refl

parse_uint-value_example :
    parse_uint (codes " 8192 MiB ") ≡ value 0 (digits (trim_space (codes " 8192 MiB "))) % 2 ^ 64
unfolding is_space
parse_uint-value_example = parse_uint-value (codes " 8192 MiB ")

parse_uint-decimal_text_example : parse_uint (decimal_text 43 42) ≡ 42
parse_uint-decimal_text_example = parse_uint-decimal_text 42 (omega arith)
