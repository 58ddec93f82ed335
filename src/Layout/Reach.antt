-- ===== src/Layout/Reach.antt =====
-- python/src/mlogv32/preprocessor/app.py: the links of the processors against the blocks.
use mlogv.Prelude.{
  ◌≡◌, refl, Bool, true, false, ◌&&◌, ◌||◌, List, [], ◌∷◌, ◌++◌, Text, All, All-append, Option,
  Result, ok, bind-eq-ok, append_assoc, sym, subst, arith, if◌then◌else◌, if_keeps, ℤ, pos, negsuc,
  ◌+ℤ◌, eqb_ℤ,
}
use mlogv.Memory.{lenrange}
use mlogv.Layout.{
  Link, Part, sortkb_schem, Block, relative_links, simple_block, block_at, over, lookup_links,
  uart_links, first_uart, display_links, controller_links, worker_links, debugger_links,
  processor_block, devices, peripherals,
}
use mlogv.Config.{ConfigArgs}
use mlogv.Layout.Cpu.{worker_at, cpu, debugger, BuildError, dimensions}
use mlogv.Layout.Build.{BuildArguments, Codes, Built, config_args_for, assemble, build}
use mlogv.Layout.Covers.{
  reaches, LeadTo, reaches-append, relative_links-LeadTo, every, every-All, All-map, over-All,
}

module _ (config_code display_code controller_code worker_code debugger_code : Text)
    (keyboard : Bool) (width height : ℤ) where
  -- All blocks but those of the memory.
  abbrev pub all_blocks : List Block
  all_blocks =
      peripherals config_code display_code keyboard
      ++ (cpu controller_code worker_code width height ++ debugger debugger_code)

  abbrev controller : Block
  controller =
      processor_block Part.world_processor (pos 16) (pos 0) controller_code controller_links

  abbrev fixed : Link → Bool
  fixed l =
      reaches (peripherals config_code display_code keyboard) l.name l.x l.y
      || (reaches (controller ∷ []) l.name l.x l.y
          || reaches (debugger debugger_code) l.name l.x l.y)

  controller-reaches :
      (name : Text) (x y : ℤ)
      → reaches (controller ∷ []) name x y ≡ true
      → reaches (cpu controller_code worker_code width height) name x y ≡ true
  unfolding cpu reaches
  controller-reaches name x y h = ground arith

  fixed-reaches : (l : Link) → fixed l ≡ true → reaches all_blocks l.name l.x l.y ≡ true
  fixed-reaches l h = ground (
    arith,
    reaches-append (peripherals config_code display_code keyboard)
        (cpu controller_code worker_code width height ++ debugger debugger_code) l.name l.x l.y,
    reaches-append (cpu controller_code worker_code width height) (debugger debugger_code) l.name
        l.x l.y,
    controller-reaches l.name l.x l.y,
  )

  links-LeadTo :
      (links : List Link) (x y : ℤ)
      → every fixed links ≡ true
      → All (λ l. reaches all_blocks l.name (x +ℤ l.x) (y +ℤ l.y) ≡ true) (relative_links links x y)
  links-LeadTo links x y h = relative_links-LeadTo all_blocks links x y (
      All-map (λ l. fixed l ≡ true) (λ l. reaches all_blocks l.name l.x l.y ≡ true) links
        fixed-reaches (every-All fixed links h))

module _ (config_code display_code controller_code worker_code debugger_code : Text)
    (keyboard : Bool) (width height : ℤ) where
  abbrev Fits : List Link → Type 0
  Fits links =
      every
        (fixed config_code display_code controller_code worker_code debugger_code keyboard width
          height)
        links
      ≡ true

  abbrev built : List Block
  built =
      all_blocks config_code display_code controller_code worker_code debugger_code keyboard width
        height

  devices-LeadTo : Fits display_links → All (LeadTo built) (devices config_code display_code)
  unfolding devices
  devices-LeadTo h = (
    tt,
    (
      tt,
      (
        tt,
        (
          tt,
          (
            tt,
            (
              tt,
              (
                tt,
                (
                  tt,
                  (
                    tt,
                    (
                      tt,
                      (
                        tt,
                        (
                          tt,
                          (
                            tt,
                            (
                              tt,
                              (
                                tt,
                                (
                                  tt,
                                  (
                                    tt,
                                    (
                                      links-LeadTo config_code display_code controller_code
                                          worker_code debugger_code keyboard width height
                                          display_links (pos 12) (pos 16) h,
                                      tt,
                                    ),
                                  ),
                                ),
                              ),
                            ),
                          ),
                        ),
                      ),
                    ),
                  ),
                ),
              ),
            ),
          ),
        ),
      ),
    ),
  )

  peripherals-LeadTo :
      Fits display_links → All (LeadTo built) (peripherals config_code display_code keyboard)
  unfolding peripherals
  peripherals-LeadTo h =
      let ends = if keyboard then simple_block sortkb_schem 14 16 ∷ [] else [] in
      let banks =
        over (lenrange (pos 5) (pos 4) (pos 2)) (lenrange (pos 18) (negsuc 3) (negsuc 1))
          (λ x y. block_at Part.memory_bank x y ∷ []) in
      let last : All (LeadTo built) ends = if_keeps (All (LeadTo built)) keyboard (tt, tt) tt in
      let behind : All (LeadTo built) (banks ++ (devices config_code display_code ++ ends)) =
        All-append (LeadTo built) banks (devices config_code display_code ++ ends)
          (over-All (LeadTo built) (λ x y. block_at Part.memory_bank x y ∷ []) (λ x y. (tt, tt))
            (lenrange (pos 5) (pos 4) (pos 2)) (lenrange (pos 18) (negsuc 3) (negsuc 1)))
          (All-append (LeadTo built) (devices config_code display_code) ends (devices-LeadTo h)
            last) in
      All-append (LeadTo built)
        (over (lenrange (pos 0) (pos 16) (pos 1)) (lenrange (pos 0) (pos 16) (pos 1))
          (λ x y. block_at Part.tile_logic_display x y ∷ []))
        _
        (over-All (LeadTo built) (λ x y. block_at Part.tile_logic_display x y ∷ [])
          (λ x y. (tt, tt)) (lenrange (pos 0) (pos 16) (pos 1)) (lenrange (pos 0) (pos 16) (pos 1)))
        (tt, (tt, (tt, (tt, (tt, behind)))))

  worker_at-LeadTo : Fits worker_links → (x y : ℤ) → All (LeadTo built) (worker_at worker_code x y)
  unfolding worker_at
  worker_at-LeadTo h x y = if_keeps (All (LeadTo built)) (eqb_ℤ x (pos 16) && eqb_ℤ y (pos 0)) tt (
    links-LeadTo config_code display_code controller_code worker_code debugger_code keyboard width
        height worker_links x y h,
    tt,
  )

  cpu-LeadTo :
      Fits controller_links
      → Fits worker_links
      → All (LeadTo built) (cpu controller_code worker_code width height)
  unfolding cpu
  cpu-LeadTo hc hw = (
    links-LeadTo config_code display_code controller_code worker_code debugger_code keyboard width
        height controller_links (pos 16) (pos 0) hc,
    over-All (LeadTo built) (worker_at worker_code) (worker_at-LeadTo hw)
        (lenrange (pos 16) width (pos 1)) (lenrange (pos 0) height (pos 1)),
  )

  debugger-LeadTo : Fits debugger_links → All (LeadTo built) (debugger debugger_code)
  unfolding debugger
  debugger-LeadTo h =
      All-append (LeadTo built)
        (over (lenrange (negsuc 17) (pos 16) (pos 1)) (lenrange (pos 0) (pos 16) (pos 1))
          (λ x y. block_at Part.tile_logic_display x y ∷ []))
        _
        (over-All (LeadTo built) (λ x y. block_at Part.tile_logic_display x y ∷ [])
          (λ x y. (tt, tt)) (lenrange (negsuc 17) (pos 16) (pos 1))
          (lenrange (pos 0) (pos 16) (pos 1)))
        (
          tt,
          (
            links-LeadTo config_code display_code controller_code worker_code debugger_code keyboard
                width height debugger_links (negsuc 1) (pos 0) h,
            tt,
          ),
        )

module _ (config_code display_code controller_code worker_code debugger_code : Text) where
  fits :
      (keyboard : Bool) (width height : ℤ)
      → Fits config_code display_code controller_code worker_code debugger_code keyboard width
          height display_links
        × Fits config_code display_code controller_code worker_code debugger_code keyboard width
            height controller_links
        × Fits config_code display_code controller_code worker_code debugger_code keyboard width
            height worker_links
        × Fits config_code display_code controller_code worker_code debugger_code keyboard width
            height debugger_links
  unfolding peripherals devices debugger mlogv.Layout.lookup_links_from mlogv.PyInt.decimal reaches
      display_links first_uart worker_links controller_links debugger_links lookup_links uart_links
      lenrange ◌+ℤ◌ relative_links
  fits true width height = (refl, refl, refl, refl)
  fits false width height = (refl, refl, refl, refl)

  all_blocks-LeadTo :
      (keyboard : Bool) (width height : ℤ)
      → All
          (LeadTo (
            all_blocks config_code display_code controller_code worker_code debugger_code keyboard
              width height))
          (all_blocks config_code display_code controller_code worker_code debugger_code keyboard
            width height)
  all_blocks-LeadTo keyboard width height =
      let (shown, control, work, debug) = fits keyboard width height in
      let P = LeadTo (
        all_blocks config_code display_code controller_code worker_code debugger_code keyboard width
          height) in
      All-append P (peripherals config_code display_code keyboard)
        (cpu controller_code worker_code width height ++ debugger debugger_code)
        (peripherals-LeadTo config_code display_code controller_code worker_code debugger_code
          keyboard width height shown)
        (All-append P (cpu controller_code worker_code width height) (debugger debugger_code)
          (cpu-LeadTo config_code display_code controller_code worker_code debugger_code keyboard
            width height control work)
          (debugger-LeadTo config_code display_code controller_code worker_code debugger_code
            keyboard width height debug))

ok-injective : {r b : Built} → ◌≡◌ {A = Result BuildError Built} (ok r) (ok b) → r ≡ b
ok-injective h = cc

-- The blocks of a schematic with all parts but the memory, whose processors have no links.
abbrev pub placed : Built → List Block
placed b = b.blocks ++ b.debugger_blocks

assemble-LeadTo :
    (code : Codes) (a : BuildArguments) (size : ℤ × ℤ) (args : Option ConfigArgs)
    → a.include_all || a.include_peripherals ≡ true
    → a.include_all || a.include_cpu ≡ true
    → a.include_all || a.include_debugger ≡ true
    → All (LeadTo (placed (assemble code a size args))) (placed (assemble code a size args))
unfolding assemble
assemble-LeadTo code a size args hp hc hd =
    let shown = peripherals code.config_code code.display_code a.include_keyboard in
    let worked = cpu code.controller_code code.worker_code size.0 size.1 in
    let watched = debugger code.debugger_code in
    let parts : placed (assemble code a size args) ≡ shown ++ (worked ++ watched) =
      rw (hp, hc, hd) (append_assoc shown worked watched) in
    subst (λ blocks. All (LeadTo blocks) blocks) (sym parts)
      (all_blocks-LeadTo code.config_code code.display_code code.controller_code code.worker_code
        code.debugger_code a.include_keyboard size.0 size.1)

-- If `build` succeeds and the peripherals, the CPU and the debugger are included, then, for every width and
-- height of the CPU and with or without a keyboard, every link of every processor leads, counted from the
-- processor's place, to a place that a block or a schematic of the built schematic covers, and that is of
-- the kind that the link's name tells if the link has a name.
pub build-LeadTo :
    (known : Text → Option ConfigArgs) (code : Codes) (a : BuildArguments) (b : Built)
    → build known code a ≡ ok b
    → a.include_all || a.include_peripherals ≡ true
    → a.include_all || a.include_cpu ≡ true
    → a.include_all || a.include_debugger ≡ true
    → All (LeadTo (placed b)) (placed b)
unfolding build
build-LeadTo known code a b h hp hc hd =
    let (size, sized, h1) =
      bind-eq-ok (dimensions a.width a.height a.size a.include_keyboard) _ h in
    let (args, found, h2) =
      bind-eq-ok (config_args_for known a.config_name (a.include_all || a.include_memory)) _ h1 in
    subst (λ r. All (LeadTo (placed r)) (placed r)) (ok-injective h2)
      (assemble-LeadTo code a size args hp hc hd)
