-- ===== src/Rendering/Codes/Steps.antt =====
-- python/src/mlogv32/preprocessor/app.py: which files `_render_template` writes.
use mlogv.Prelude.{
  Bool, true, false, List, [], ◌++◌, Text, text_eq, codes, Result, ok, err, bind-eq-ok, ◌≡◌, ◌≢◌,
  ap, sym, ◌∙◌,
}
use mlogv.Mlog.{MlogError}
use mlogv.Rendering.{
  FilePath, Files, RenderError, read_text, write_text, parent, name_of, stem_and_suffix,
  get_template_output_path, Value, Extension, create_jinja_env, Jinja, render_template,
}
use mlogv.Rendering.Files.{read_text-write_text_other}
use mlogv.Rendering.Codes.{
  with_inputs, check_inputs, rendering, checking, read_or_render, render_forced, render_or_read,
}

pub rendering-ok : {A : Type 0} (m : Result RenderError A) (a : A) → rendering m ≡ ok a → m ≡ ok a
rendering-ok (err e) a h = cc
rendering-ok (ok b) a h = cc

pub checking-ok : {A : Type 0} (m : Result MlogError A) (a : A) → checking m ≡ ok a → m ≡ ok a
checking-ok (err e) a h = cc
checking-ok (ok b) a h = cc

pub ok-parts :
    {A B : Type 0} {E : Type 0} (a a' : A) (b b' : B) (f f' : Files)
    → ◌≡◌ {A = Result E (A × B × Files)} (ok (a, b, f)) (ok (a', b', f'))
    → (a ≡ a') × (b ≡ b') × (f ≡ f')
ok-parts a a' b b' f f' h = (cc, cc, cc)

pub ok-injective : {A E : Type 0} (a b : A) → ◌≡◌ {A = Result E A} (ok a) (ok b) → a ≡ b
ok-injective a b h = cc

pub with_inputs-ok :
    {V : Type 0} (given inputs kwargs : List (Text × Value V))
    → with_inputs given inputs ≡ ok kwargs
    → given ++ inputs ≡ kwargs
unfolding with_inputs
with_inputs-ok given inputs kwargs h =
    let (checked, all_new, h') = bind-eq-ok (check_inputs _ inputs) _ h in
    ok-injective (given ++ inputs) kwargs h'

ok-two :
    {A : Type 0} (a a' : A) (f f' : Files)
    → ◌≡◌ {A = Result RenderError (A × Files)} (ok (a, f)) (ok (a', f'))
    → (a ≡ a') × (f ≡ f')
ok-two a a' f f' h = (cc, cc)

module _ {Template V : Type 0} (jinja : Jinja Template V) where
  -- the text is what a template gives, and only its file is written
  pub render_forced-ok :
      (template : FilePath) (extensions : List Extension) (kwargs : List (Text × Value V))
      (files : Files) (text : Text) (output : FilePath) (files' : Files)
      → render_forced jinja template extensions kwargs files ≡ ok (text, output, files')
      → (loaded : Template) × (jinja.get_template files
            (create_jinja_env (parent template) extensions)
            (name_of template)
          ≡ ok loaded)
        × (jinja.render (create_jinja_env (parent template) extensions) loaded kwargs ≡ ok text)
        × (get_template_output_path template ≡ ok output)
        × (files' ≡ write_text files output text)
  unfolding render_forced render_template
  render_forced-ok template extensions kwargs files text output files' h =
      let env = create_jinja_env (parent template) extensions in
      let (out, placed, h1) = bind-eq-ok (get_template_output_path template) _ h in
      let (rendered, done, h2) =
        bind-eq-ok (render_template jinja files template out env kwargs) _ h1 in
      let (loaded, found, h3) =
        bind-eq-ok (jinja.get_template files env (name_of template)) _ done in
      let (result, made, h4) = bind-eq-ok (jinja.render env loaded kwargs) _ h3 in
      let (r0, r1) = ok-two result rendered.0 (write_text files out result) rendered.1 h4 in
      let (e0, e1, e2) = ok-parts rendered.0 text out output rendered.1 files' h2 in
      (
        loaded,
        found,
        made ∙ ap ok (r0 ∙ e0),
        placed ∙ ap ok e1,
        sym (r1 ∙ e2)
            ∙ ap (λ o. write_text files o result) e1
            ∙ ap (write_text files output) (r0 ∙ e0),
      )

  render_forced-spares :
      (template : FilePath) (extensions : List Extension) (kwargs : List (Text × Value V))
      (files : Files) (text : Text) (output : FilePath) (files' : Files) (path : FilePath)
      → render_forced jinja template extensions kwargs files ≡ ok (text, output, files')
      → get_template_output_path template ≢ ok path
      → read_text files' path ≡ read_text files path
  render_forced-spares template extensions kwargs files text output files' path h other =
      let (loaded, found, made, placed, files_are) =
        render_forced-ok template extensions kwargs files text output files' h in
      ap (λ f. read_text f path) files_are
      ∙ read_text-write_text_other files output text path (λ same. other (placed ∙ ap ok same))

  read_or_render-spares :
      (read : Bool) (template : FilePath) (files : Files) (text : Text) (files' : Files)
      (path : FilePath)
      → read_or_render jinja read template files ≡ ok (text, files')
      → get_template_output_path template ≢ ok path
      → read_text files' path ≡ read_text files path
  unfolding read_or_render
  read_or_render-spares true template files text files' path h other =
      let (found, read, h1) = bind-eq-ok (read_text files template) _ h in
      ap (λ f. read_text f path) (sym (ok-two found text files files' h1).1)
  read_or_render-spares false template files text files' path h other =
      let (rendered, done, h1) = bind-eq-ok (render_forced jinja template [] [] files) _ h in
      ap (λ f. read_text f path) (sym (ok-two rendered.0 text rendered.2 files' h1).1)
      ∙ render_forced-spares template [] [] files rendered.0 rendered.1 rendered.2 path done other

  pub render_or_read-spares :
      (template : FilePath) (files : Files) (text : Text) (files' : Files) (path : FilePath)
      → render_or_read jinja template files ≡ ok (text, files')
      → get_template_output_path template ≢ ok path
      → read_text files' path ≡ read_text files path
  unfolding render_or_read
  render_or_read-spares template files text files' path h other =
      read_or_render-spares (text_eq (stem_and_suffix (name_of template)).1 (codes ".mlog"))
        template files text files' path h other
