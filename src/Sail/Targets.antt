-- ===== src/Sail/Targets.antt =====
-- riscof/sail_cSim/riscof_sail_cSim.py: the commands of a target, cut at the semicolons of one text.
use mlogv.Prelude.{
  ℕ, ◌≡◌, ◌≢◌, refl, ap, sym, ◌∙◌, true, Option, none, some, List, [], ◌∷◌, ◌++◌, map, Text, codes,
  join, ok, All, All-append, append_assoc, subst, arith,
}
use mlogv.PyInt.{is_space}
use mlogv.Config.{split}
use mlogv.Config.Positional.{split_from-join}
use mlogv.Riscof.{but_last}
use mlogv.Sail.{
  SailPlugin, Suite, Target, SailTest, without_suffix, test_name_of, compile_parts, compile,
  objdump, simulate_parts, simulate, cover_parts, cover, coverage, execute, target_of,
}
use mlogv.Sail.Texts.{
  lacks, ink, lacks-All, ink-append, in_directory, rules-map, behind_slash-file, but_last-append,
}
use mlogv.Sail.Clean.{
  IsClean, HasNoSemicolon, IsClean-compile, IsClean-objdump, IsClean-simulate, IsClean-cover,
}

-- the commands of a test
abbrev pub commands :
    SailPlugin → Suite → Target → SailTest → Text → Option (List Text) → Option Text → List Text
commands plugin suite target test test_name none header_file =
    compile plugin suite target test ∷ (b'#' ∷ objdump target) ∷ simulate plugin test test_name ∷ []
commands plugin suite target test test_name (some cgf_file) header_file =
    compile plugin suite target test
    ∷ (b'#' ∷ objdump target)
    ∷ simulate plugin test test_name
    ∷ cover target test test_name cgf_file header_file
    ∷ []

execute-join :
    (plugin : SailPlugin) (suite : Suite) (target : Target) (test : SailTest) (test_name : Text)
    (cgf_file : Option (List Text)) (header_file : Option Text)
    → execute plugin suite target test test_name cgf_file header_file
      ≡ join
          (b';' ∷ [])
          (commands plugin suite target test test_name cgf_file header_file ++ ([] ∷ []))
unfolding execute coverage join
execute-join plugin suite target test test_name none header_file = refl
execute-join plugin suite target test test_name (some cgf_file) header_file = refl

commands-IsClean :
    (plugin : SailPlugin) (suite : Suite) (target : Target) (test : SailTest) (test_name : Text)
    (cgf_file : Option (List Text)) (header_file : Option Text)
    → HasNoSemicolon plugin suite target test cgf_file header_file
    → IsClean test_name
    → All IsClean (commands plugin suite target test test_name cgf_file header_file)
commands-IsClean plugin suite target test test_name none header_file
      (
        path, name, exe, env, xlen, flen, mabi, test_path, dir, isa, macros, labels, mac, cgf,
        header,
      )
      h =
    (
      IsClean-compile plugin suite target test (path, name, exe, env) (xlen, flen, mabi)
          (test_path, dir, isa) macros,
      (
        IsClean-objdump target xlen,
        (IsClean-simulate plugin test test_name path name exe dir h, tt),
      ),
    )
commands-IsClean plugin suite target test test_name (some cgf_file) header_file
      (
        path, name, exe, env, xlen, flen, mabi, test_path, dir, isa, macros, labels, mac, cgf,
        header,
      )
      h =
    (
      IsClean-compile plugin suite target test (path, name, exe, env) (xlen, flen, mabi)
          (test_path, dir, isa) macros,
      (
        IsClean-objdump target xlen,
        (
          IsClean-simulate plugin test test_name path name exe dir h,
          (
            IsClean-cover target test test_name cgf_file header_file xlen flen h labels mac cgf
                header,
            tt,
          ),
        ),
      ),
    )

ink-simulate :
    (plugin : SailPlugin) (test : SailTest) (test_name : Text)
    → ink (simulate plugin test test_name) ≡ true
unfolding simulate simulate_parts ink join is_space
ink-simulate plugin test test_name = ink-append plugin.sail_exe _ ∙ ground arith

commands-ink :
    (plugin : SailPlugin) (suite : Suite) (target : Target) (test : SailTest) (test_name : Text)
    (cgf_file : Option (List Text)) (header_file : Option Text)
    → All (λ cmd. ink cmd ≡ true) (commands plugin suite target test test_name cgf_file header_file)
unfolding compile compile_parts objdump cover cover_parts ink join is_space
commands-ink plugin suite target test test_name none header_file =
    (refl, (refl, (ink-simulate plugin test test_name, tt)))
commands-ink plugin suite target test test_name (some cgf_file) header_file =
    (refl, (refl, (ink-simulate plugin test test_name, (refl, tt))))

IsClean-lacks : (cmds : List Text) → All IsClean cmds → All (All (λ c. c ≢ b';')) cmds
IsClean-lacks [] h = tt
IsClean-lacks (cmd ∷ cmds) h = (lacks-All b';' cmd h.0, IsClean-lacks cmds h.1)

split-join :
    (cmd : Text) (cmds : List Text)
    → All IsClean (cmd ∷ cmds)
    → split b';' (join (b';' ∷ []) (cmd ∷ cmds)) ≡ cmd ∷ cmds
unfolding split
split-join cmd cmds h = rw (split_from-join b';' cmd cmds (IsClean-lacks (cmd ∷ cmds) h)) refl

split-commands :
    (cmds : List Text)
    → All IsClean cmds
    → split b';' (join (b';' ∷ []) (cmds ++ ([] ∷ []))) ≡ cmds ++ ([] ∷ [])
unfolding lacks
split-commands [] h = split-join [] [] (refl, tt)
split-commands (cmd ∷ cmds) h =
    split-join cmd (cmds ++ ([] ∷ [])) (All-append IsClean (cmd ∷ cmds) ([] ∷ []) h (refl, tt))

lacks-parts :
    (sep : ℕ) (s t : Text) → lacks sep (s ++ t) ≡ true → (lacks sep s ≡ true) × (lacks sep t ≡ true)
unfolding lacks
lacks-parts sep [] t h = (refl, h)
lacks-parts sep (c ∷ s) t h = ground (arith, h, lacks-parts sep s t)

-- the path of a test: a directory, and a file's name without slashes that ends in two more characters
abbrev pub path_of : Text → Text → ℕ → ℕ → Text
path_of dir test_name dot letter = dir ++ (b'/' ∷ (test_name ++ (dot ∷ letter ∷ [])))

test_name_of-path :
    (dir test_name : Text) (dot letter : ℕ)
    → lacks b'/' (test_name ++ (dot ∷ letter ∷ [])) ≡ true
    → test_name_of (path_of dir test_name dot letter) ≡ ok test_name
unfolding test_name_of without_suffix
test_name_of-path dir test_name dot letter h =
    let file = test_name ++ (dot ∷ letter ∷ []) in
    let short : but_last (but_last file) ≡ test_name =
      ap (λ f. but_last (but_last f)) (sym (append_assoc test_name (dot ∷ []) (letter ∷ [])))
      ∙ ap but_last (but_last-append (test_name ++ (dot ∷ [])) letter)
      ∙ but_last-append test_name dot in
    ap (without_suffix (path_of dir test_name dot letter)) (behind_slash-file dir file h)
    ∙ ap ok short

-- No text of the plugin, of the test or of the options holds a semicolon, and the test's file is in a
-- directory. Then `runTests` finds the test's name, and the target consists of these commands, each in the
-- test's directory and with single spaces, with an empty line between them: the compiler, the
-- disassembler as a comment, the simulator and, where a coverage file is given, the coverage.
pub target_of-commands :
    (plugin : SailPlugin) (suite : Suite) (target : Target) (test : SailTest)
    (cgf_file : Option (List Text)) (header_file : Option Text) (dir test_name : Text)
    (dot letter : ℕ)
    → HasNoSemicolon plugin suite target test cgf_file header_file
    → test.test_path ≡ path_of dir test_name dot letter
    → lacks b'/' (test_name ++ (dot ∷ letter ∷ [])) ≡ true
    → target_of plugin suite target cgf_file header_file test
      ≡ ok (
          join (codes "\n\n") (
            map
              (in_directory test.work_dir)
              (commands plugin suite target test test_name cgf_file header_file)))
unfolding target_of
target_of-commands plugin suite target test cgf_file header_file dir test_name dot letter clean path
      slash =
    let named : test_name_of test.test_path ≡ ok test_name =
      ap test_name_of path ∙ test_name_of-path dir test_name dot letter slash in
    let test_path : IsClean (path_of dir test_name dot letter) = subst IsClean path clean.7 in
    let file = lacks-parts b';' (dir ++ (b'/' ∷ [])) (test_name ++ (dot ∷ letter ∷ [])) (
      subst IsClean (sym (append_assoc dir (b'/' ∷ []) (test_name ++ (dot ∷ letter ∷ []))))
        test_path) in
    let name = lacks-parts b';' test_name (dot ∷ letter ∷ []) file.1 in
    let cmds = commands plugin suite target test test_name cgf_file header_file in
    let cut : split b';' (execute plugin suite target test test_name cgf_file header_file)
        ≡ cmds ++ ([] ∷ []) =
      ap (split b';') (execute-join plugin suite target test test_name cgf_file header_file)
      ∙ split-commands cmds
          (commands-IsClean plugin suite target test test_name cgf_file header_file clean name.0) in
    rw
      (
        named,
        cut,
        rules-map test.work_dir cmds
            (commands-ink plugin suite target test test_name cgf_file header_file),
      )
      refl
