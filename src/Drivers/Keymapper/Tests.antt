-- ===== src/Drivers/Keymapper/Tests.antt =====
-- Keys of the default mapping.
use navi_os.Base.{◌≡◌, returns, ◌>>=◌, arith}
use navi_os.Drivers.Keyboard.Codes
use navi_os.Drivers.Keyboard.KeyFlags
use navi_os.Drivers.Keyboard.{Key}
use navi_os.Drivers.Keymapper.{map_key}
use navi_os.Drivers.Keymapper.Defaults.{default_mapping}
use navi_os.Drivers.Keymapper.MapKey.{map_key-lookup}

abbrev at_sign : Key
at_sign = record { code = Codes.key2; flags = KeyFlags.shift }

map_key-lookup_example : (default_mapping >>= λ mapping. map_key mapping at_sign) ≡ returns b'@'
map_key-lookup_example = map_key-lookup at_sign (omega arith)
