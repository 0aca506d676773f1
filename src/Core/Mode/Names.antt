-- ===== src/Core/Mode/Names.antt =====
-- core/gpumode.c: the names of connectors and encoders.
use amdtop.Base.{ℕ, Option, none, some, List, [], ◌∷◌, get_elem?}
use Prim.Native.String.{String}

abbrev connector_names : List String
connector_names =
    "Unknown" ∷ "VGA" ∷ "DVII" ∷ "DVID" ∷ "DVIA" ∷ "Composite" ∷ "SVIDEO" ∷ "LVDS" ∷ "Component"
    ∷ "9PinDIN" ∷ "DisplayPort" ∷ "HDMIA" ∷ "HDMIB" ∷ "TV" ∷ "eDP" ∷ "VIRTUAL" ∷ "DSI" ∷ "DPI" ∷ []

abbrev encoder_names : List String
encoder_names =
    "NONE" ∷ "DAC" ∷ "TMDS" ∷ "LVDS" ∷ "TVDAC" ∷ "VIRTUAL" ∷ "DSI" ∷ "DPMST" ∷ "DPI" ∷ []

abbrev name_or_unknow : Option String → String
name_or_unknow none = "unknow"
name_or_unknow (some s) = s

-- `getConnectorNameByType`
unfoldable pub get_connector_name_by_type : ℕ → String
get_connector_name_by_type t = name_or_unknow (get_elem? connector_names t)

-- `getEncoderNameByType`
unfoldable pub get_encoder_name_by_type : ℕ → String
get_encoder_name_by_type t = name_or_unknow (get_elem? encoder_names t)
