-- ===== src/Core/Info/Names.antt =====
-- core/gpuinfo.c: the names of the kinds of memory and of the families of cards.
use amdtop.Base.{ℕ, ◌==◌, if◌then◌else◌}
use Prim.Native.String.{String}

-- `gpuGetVramType`
unfoldable pub gpu_get_vram_type : ℕ → String
gpu_get_vram_type t =
    if t == 0
    then "unknow"
    else (if t == 1
        then "GDDR1"
        else (if t == 2
            then "GDDR2"
            else (if t == 3
                then "GDDR2"
                else (if t == 4
                    then "GDDR4"
                    else (if t == 5
                        then "GDDR5"
                        else (if t == 6
                            then "HBM"
                            else (if t == 7
                                then "DDR3"
                                else (if t == 8
                                    then "DDR4"
                                    else (if t == 9 then "GDDR6" else "unknow")))))))))

-- `gpuGetFamilyType`
unfoldable pub gpu_get_family_type : ℕ → String
gpu_get_family_type t =
    if t == 110
    then "SI (Hainan, etc)"
    else (if t == 120
        then "CI (Bonaire, Hawaii)"
        else (if t == 130
            then "VI (Iceland, Tonga)"
            else (if t == 125
                then "KV (Kaveri, Kabini, Mullins)"
                else (if t == 135
                    then "CZ (Carrizo, Stoney)"
                    else (if t == 141
                        then "AI (Vega10)"
                        else (if t == 142
                            then "RV (Raven)"
                            else (if t == 143 then "Navi" else "unknow")))))))
