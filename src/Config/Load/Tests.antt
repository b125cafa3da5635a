-- ===== src/Config/Load/Tests.antt =====
-- The bounds of the configuration that the sample environment gives (src/config.rs).
use unlimited_ocr_server.Prelude.{none}
use unlimited_ocr_server.Config.Load.Bounds.{IsUsable, load-IsUsable}
use unlimited_ocr_server.Config.Samples.{env, machine, loaded, loads_all}

load-IsUsable_example : IsUsable loaded
load-IsUsable_example = load-IsUsable env machine none loaded loads_all
