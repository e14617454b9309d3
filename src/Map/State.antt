-- ===== src/Map/State.antt =====
-- The invariant of a map.
use libntech.Prelude.{◌≡◌, true}
use libntech.MapCommon.{KeyFns}
use libntech.ArrayMap.Contents
use libntech.HashMap.State
use libntech.Map.{Map, small, large}

abbrev pub IsValid : KeyFns → Map → Type 0
IsValid f (small a) = Contents.IsValid f a
IsValid f (large h) = State.IsValid f h × (h.has_destroy_key ≡ true) × (h.has_destroy_value ≡ true)
