-- ===== src/Layout/Cpu.antt =====
-- python/src/mlogv32/preprocessor/app.py: the CPU, the debugger, and the checks of the arguments.
use mlogv.Prelude.{
  Bool, true, ◌&&◌, Option, none, some, List, [], ◌∷◌, ◌++◌, Text, Result, ok, err, if◌then◌else◌,
  ℤ, pos, negsuc, eqb_ℤ, ltb_ℤ,
}
use mlogv.Memory.{lenrange}
use mlogv.Layout.{
  Block, column, over, block_at, controller_links, worker_links, debugger_links, processor_block,
  tile_logic_display, world_processor, switch, is_on,
}

-- a worker, but for the place of the controller
unfoldable pub worker_at : Text → ℤ → ℤ → List Block
worker_at worker_code x y =
    if eqb_ℤ x (pos 16) && eqb_ℤ y (pos 0)
    then []
    else processor_block world_processor x y worker_code worker_links ∷ []

-- `include_cpu`
unfoldable pub cpu : Text → Text → ℤ → ℤ → List Block
unfolding over column
cpu controller_code worker_code width height =
    processor_block world_processor (pos 16) (pos 0) controller_code controller_links
    ∷ over (lenrange (pos 16) width (pos 1)) (lenrange (pos 0) height (pos 1))
        (worker_at worker_code)

-- `include_debugger`
unfoldable pub debugger : Text → List Block
unfolding over column
debugger debugger_code =
    over (lenrange (negsuc 17) (pos 16) (pos 1)) (lenrange (pos 0) (pos 16) (pos 1))
      (λ x y. block_at tile_logic_display x y ∷ [])
    ++ (record { part = switch; x = negsuc 1; y = pos 1; config = is_on true }
        ∷ processor_block world_processor (negsuc 1) (pos 0) debugger_code debugger_links
        ∷ [])

-- `if size:`, which a size of zero does not pass
abbrev pub sized : Option ℤ → ℤ → ℤ → ℤ × ℤ
sized none width height = (width, height)
sized (some n) width height = if eqb_ℤ n (pos 0) then (width, height) else (n, n)

-- the checks of the arguments: `size` replaces `width` and `height`, and a keyboard bounds the height
pub data BuildError : Type 0 where
  height_too_large : ℤ → BuildError
  config_required : BuildError
  invalid_config : Text → BuildError

unfoldable pub dimensions : ℤ → ℤ → Option ℤ → Bool → Result BuildError (ℤ × ℤ)
dimensions width height size keyboard =
    let (w, h) = sized size width height in
    if keyboard && ltb_ℤ (pos 16) h then err (height_too_large h) else ok (w, h)
