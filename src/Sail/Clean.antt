-- ===== src/Sail/Clean.antt =====
-- riscof/sail_cSim/riscof_sail_cSim.py: the semicolons of the commands.
use mlogv.Prelude.{
  ◌≡◌, refl, true, Option, none, some, List, [], ◌∷◌, ◌++◌, Text, codes, join, All, arith,
}
use mlogv.Riscof.{join_path, compile_macros, but_last}
use mlogv.Sail.{
  SailPlugin, Suite, Target, SailTest, compile_parts, compile, objdump, simulate_parts, simulate,
  options, header_flag, cgf_mac, cover_parts, cover,
}
use mlogv.Sail.Texts.{lacks, lacks-append, lacks-join, lacks-lower, lacks-but_last}

-- No semicolon is in the text.
abbrev pub IsClean : Text → Type 0
IsClean s = lacks b';' s ≡ true

abbrev pub listed : {A : Type 0} → Option (List A) → List A
listed none = []
listed (some xs) = xs

abbrev pub HasNoSemicolon :
    SailPlugin → Suite → Target → SailTest → Option (List Text) → Option Text → Type 0
HasNoSemicolon plugin suite target test cgf_file header_file =
    IsClean plugin.plugin_path
    × IsClean plugin.name
    × IsClean plugin.sail_exe
    × IsClean suite.archtest_env
    × IsClean target.xlen
    × IsClean target.flen
    × IsClean target.mabi
    × IsClean test.test_path
    × IsClean test.work_dir
    × IsClean test.isa
    × All IsClean test.macros
    × All IsClean test.coverage_labels
    × All IsClean test.mac
    × All IsClean (listed cgf_file)
    × All IsClean (elim header_file [ none ↦ [] | some header ↦ header ∷ [] ])

IsClean-join_path : (a b : Text) → IsClean a → IsClean b → IsClean (join_path a b)
unfolding join_path lacks
IsClean-join_path [] b ha hb = hb
IsClean-join_path (c ∷ a) b ha hb =
    ground
      (arith, hb, lacks-append b';' (c ∷ a) b ha hb, lacks-append b';' (c ∷ a) (b'/' ∷ b) ha hb)

IsClean-options :
    (option : Text) (names : List Text)
    → IsClean option
    → All IsClean names
    → IsClean (options option names)
unfolding options lacks
IsClean-options option [] ho h = refl
IsClean-options option (name ∷ names) ho h =
    lacks-append b';' option (name ++ options option names) ho
      (lacks-append b';' name (options option names) h.0 (IsClean-options option names ho h.1))

pub IsClean-compile :
    (plugin : SailPlugin) (suite : Suite) (target : Target) (test : SailTest)
    → IsClean plugin.plugin_path
      × IsClean plugin.name
      × IsClean plugin.sail_exe
      × IsClean suite.archtest_env
    → IsClean target.xlen × IsClean target.flen × IsClean target.mabi
    → IsClean test.test_path × IsClean test.work_dir × IsClean test.isa
    → All IsClean test.macros
    → IsClean (compile plugin suite target test)
unfolding compile compile_parts lacks compile_macros
IsClean-compile plugin suite target test (path, name, exe, env) (xlen, flen, mabi)
      (test_path, work_dir, isa) macros =
    lacks-join b';' [] (compile_parts plugin suite target test) refl (
      refl,
      (
        xlen,
        (
          refl,
          (
            lacks-lower test.isa isa,
            (
              refl,
              (
                path,
                (
                  refl,
                  (
                    path,
                    (
                      refl,
                      (
                        env,
                        (
                          mabi,
                          (
                            refl,
                            (
                              test_path,
                              (
                                refl,
                                (
                                  lacks-append b';' (codes " -D") (join (codes " -D") test.macros)
                                      refl (lacks-join b';' (codes " -D") test.macros refl macros),
                                  tt,
                                ),
                              ),
                            ),
                          ),
                        ),
                      ),
                    ),
                  ),
                ),
              ),
            ),
          ),
        ),
      ),
    )

pub IsClean-objdump : (target : Target) → IsClean target.xlen → IsClean (b'#' ∷ objdump target)
unfolding objdump lacks
IsClean-objdump target h =
    lacks-append b';' target.xlen (codes "-unknown-elf-objdump -D ref.elf > ref.dump") h refl

pub IsClean-simulate :
    (plugin : SailPlugin) (test : SailTest) (test_name : Text)
    → IsClean plugin.plugin_path
    → IsClean plugin.name
    → IsClean plugin.sail_exe
    → IsClean test.work_dir
    → IsClean test_name
    → IsClean (simulate plugin test test_name)
unfolding simulate simulate_parts lacks
IsClean-simulate plugin test test_name path name exe dir test_name-clean =
    lacks-join b';' [] (simulate_parts plugin test test_name) refl (
      exe,
      (
        refl,
        (
          IsClean-join_path plugin.plugin_path (codes "env/sail_config.json") path refl,
          (
            refl,
            (
              IsClean-join_path test.work_dir (but_last plugin.name ++ codes ".signature") dir (
                  lacks-append b';' (but_last plugin.name) (codes ".signature")
                    (lacks-but_last b';' plugin.name name) refl),
              (
                refl,
                (
                  IsClean-join_path test.work_dir (test_name ++ codes ".log") dir
                      (lacks-append b';' test_name (codes ".log") test_name-clean refl),
                  (refl, tt),
                ),
              ),
            ),
          ),
        ),
      ),
    )

IsClean-header :
    (header_file : Option Text)
    → All IsClean (elim header_file [ none ↦ [] | some header ↦ header ∷ [] ])
    → IsClean (header_flag header_file)
unfolding header_flag lacks
IsClean-header none h = refl
IsClean-header (some header) h = lacks-append b';' header (codes " ") h.0 refl

IsClean-cgf_mac :
    (header_file : Option Text) (mac : List Text)
    → All IsClean mac
    → IsClean (cgf_mac header_file mac)
unfolding cgf_mac lacks
IsClean-cgf_mac none mac h = refl
IsClean-cgf_mac (some header) mac h = IsClean-options (codes " -cm ") mac refl h

pub IsClean-cover :
    (target : Target) (test : SailTest) (test_name : Text) (cgf_file : List Text)
    (header_file : Option Text)
    → IsClean target.xlen
    → IsClean target.flen
    → IsClean test_name
    → All IsClean test.coverage_labels
    → All IsClean test.mac
    → All IsClean cgf_file
    → All IsClean (elim header_file [ none ↦ [] | some header ↦ header ∷ [] ])
    → IsClean (cover target test test_name cgf_file header_file)
unfolding cover cover_parts lacks
IsClean-cover target test test_name cgf_file header_file xlen flen name labels mac cgf header =
    lacks-join b';' [] (cover_parts target test test_name cgf_file header_file) refl (
      refl,
      (
        name,
        (
          refl,
          (
            lacks-join b';' (codes " -c ") cgf_file refl cgf,
            (
              refl,
              (
                xlen,
                (
                  refl,
                  (
                    flen,
                    (
                      refl,
                      (
                        IsClean-options (codes " -l ") test.coverage_labels refl labels,
                        (
                          refl,
                          (
                            IsClean-header header_file header,
                            (refl, (IsClean-cgf_mac header_file test.mac mac, tt)),
                          ),
                        ),
                      ),
                    ),
                  ),
                ),
              ),
            ),
          ),
        ),
      ),
    )
