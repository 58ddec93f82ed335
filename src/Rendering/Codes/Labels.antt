-- ===== src/Rendering/Codes/Labels.antt =====
-- python/src/mlogv32/preprocessor/app.py: the labels that the controller's template gets, and the worker's
-- file behind the build.
use mlogv.Prelude.{
  ℕ, some, List, [], ◌∷◌, ◌++◌, Text, codes, Result, ok, bind-eq-ok, ◌≡◌, ◌≢◌, ap, ap₂, sym, ◌∙◌,
}
use mlogv.Mlog.{MlogError, Ast}
use mlogv.Mlog.Replace.{lookup}
use mlogv.Mlog.Worker.{WorkerBuild, prepare_worker}
use mlogv.Mlog.Worker.Addresses.{HasLabel, prepare_worker-addresses}
use mlogv.Rendering.{
  FilePath, Files, read_text, write_text, parent, name_of, get_template_output_path,
  local_variables, create_jinja_env, Jinja, text_value, labels_value, instructions_value,
  csrs_value,
}
use mlogv.Rendering.Files.{read_text-write_text, read_text-write_text_other}
use mlogv.Rendering.Codes.{
  with_inputs, Sources, CodesBuild, rendering, checking, page_argument, controller_arguments,
  render_forced, render_or_read, worker_for, controller_for, codes_for,
}
use mlogv.Rendering.Codes.Steps.{
  rendering-ok, checking-ok, ok-parts, ok-injective, with_inputs-ok, render_forced-ok,
  render_or_read-spares,
}

module _ {Template V : Type 0} (jinja : Jinja Template V) where
  module _ (parse_mlog : Text → Result MlogError Ast) (sources : Sources V) (pages : Text) where
    worker_for-ok :
        (files : Files) (worker : WorkerBuild) (output : FilePath) (files' : Files)
        → worker_for jinja parse_mlog sources pages files ≡ ok (worker, output, files')
        → (code : Text) × (prepare_worker parse_mlog code ≡ ok worker)
          × (get_template_output_path sources.worker ≡ ok output)
          × (read_text files' output ≡ ok worker.worker_code)
    unfolding worker_for
    worker_for-ok files worker output files' h =
        let (kwargs, given, h1) =
          bind-eq-ok (rendering (with_inputs (page_argument pages ∷ []) sources.inputs)) _ h in
        let (rendered, done, h2) =
          bind-eq-ok
            (rendering (render_forced jinja sources.worker (local_variables ∷ []) kwargs files)) _
            h1 in
        let (w, prepared, h3) = bind-eq-ok (checking (prepare_worker parse_mlog rendered.0)) _ h2 in
        let (loaded, found, made, placed, files_are) =
          render_forced-ok jinja sources.worker (local_variables ∷ []) kwargs files rendered.0
            rendered.1 rendered.2
            (rendering-ok (render_forced jinja sources.worker (local_variables ∷ []) kwargs files)
              rendered done) in
        let (e0, e1, e2) =
          ok-parts w worker rendered.1 output (write_text rendered.2 rendered.1 w.worker_code)
            files' h3 in
        (
          rendered.0,
          checking-ok (prepare_worker parse_mlog rendered.0) w prepared ∙ ap ok e0,
          placed ∙ ap ok e1,
          ap₂ read_text (sym e2) (sym e1)
              ∙ read_text-write_text rendered.2 rendered.1 w.worker_code
              ∙ ap (λ x. ok x.worker_code) e0,
        )

    -- what the controller's template gives, and what keeps its text
    controller_for-ok :
        (labels : List (Text × ℕ)) (files : Files) (code : Text) (output : FilePath)
        (files' : Files)
        → controller_for jinja parse_mlog sources pages labels files ≡ ok (code, output, files')
        → (loaded : Template) × (jinja.get_template files
              (create_jinja_env (parent sources.controller) (local_variables ∷ []))
              (name_of sources.controller)
            ≡ ok loaded)
          × (jinja.render
                (create_jinja_env (parent sources.controller) (local_variables ∷ []))
                loaded
                (controller_arguments sources labels pages ++ sources.inputs)
              ≡ ok code)
          × (get_template_output_path sources.controller ≡ ok output)
          × (files' ≡ write_text files output code)
    unfolding controller_for
    controller_for-ok labels files code output files' h =
        let args = controller_arguments sources labels pages in
        let (kwargs, given, h1) = bind-eq-ok (rendering (with_inputs args sources.inputs)) _ h in
        let (rendered, done, h2) =
          bind-eq-ok
            (rendering (render_forced jinja sources.controller (local_variables ∷ []) kwargs files))
            _ h1 in
        let (ast, parsed, h3) = bind-eq-ok (checking (parse_mlog rendered.0)) _ h2 in
        let inputs =
          with_inputs-ok args sources.inputs kwargs
            (rendering-ok (with_inputs args sources.inputs) kwargs given) in
        let whole : render_forced jinja sources.controller (local_variables ∷ [])
              (args ++ sources.inputs) files
            ≡ ok (code, output, files') =
          ap (λ k. render_forced jinja sources.controller (local_variables ∷ []) k files) inputs
          ∙ rendering-ok
              (render_forced jinja sources.controller (local_variables ∷ []) kwargs files) rendered
              done
          ∙ ap ok (ok-injective rendered (code, output, files') h3) in
        render_forced-ok jinja sources.controller (local_variables ∷ []) (args ++ sources.inputs)
          files code output files' whole

    -- The template of the controller, loaded from the files behind the worker, gives the code with these
    -- four arguments in front of the inputs.
    abbrev pub IsControlled : List (Text × ℕ) → Text → Type 0
    IsControlled labels code =
        (files : Files) × (loaded : Template) × (jinja.get_template files
            (create_jinja_env (parent sources.controller) (local_variables ∷ []))
            (name_of sources.controller)
          ≡ ok loaded)
        × (jinja.render (create_jinja_env (parent sources.controller) (local_variables ∷ [])) loaded
              ((codes "instructions", instructions_value sources.instructions)
                ∷ (codes "csrs", csrs_value sources.csrs)
                ∷ (codes "labels", labels_value labels)
                ∷ (codes "VARIABLE_0_TO_PAGE_OFFSET", text_value pages)
                ∷ sources.inputs)
            ≡ ok code)

    codes_built :
        (files : Files) (built : CodesBuild) (output : FilePath) (name : Text) (n : ℕ)
        (worker : WorkerBuild × FilePath × Files) (controller : Text × FilePath × Files)
        (debugger display : Text × Files)
        → worker_for jinja parse_mlog sources pages files ≡ ok worker
        → controller_for jinja parse_mlog sources pages worker.0.worker_labels worker.2
          ≡ ok controller
        → render_or_read jinja sources.debugger controller.2 ≡ ok debugger
        → render_or_read jinja sources.display debugger.1 ≡ ok display
        → ◌≡◌ {A = CodesBuild}
            (record {
              worker = worker.0;
              controller_code = controller.0;
              debugger_code = debugger.0;
              display_code = display.0;
              files = display.1;
            })
            built
        → get_template_output_path sources.worker ≡ ok output
        → get_template_output_path sources.controller ≢ ok output
        → get_template_output_path sources.debugger ≢ ok output
        → get_template_output_path sources.display ≢ ok output
        → lookup built.worker.worker_labels name ≡ some n
        → IsControlled built.worker.worker_labels built.controller_code
          × ((ast : Ast) × (parse_mlog built.worker.worker_code ≡ ok ast) × HasLabel ast name n)
          × (read_text built.files output ≡ ok built.worker.worker_code)
    codes_built files built output name n worker controller debugger display made controlled
          debugged displayed same located c d e known =
        let (code, prepared, placed, held) = worker_for-ok files worker.0 worker.1 worker.2 made in
        let (loaded, found, rendered, out, files_are) =
          controller_for-ok worker.0.worker_labels worker.2 controller.0 controller.1 controller.2
            controlled in
        let worker_is : worker.0 ≡ built.worker = ap (λ b. b.worker) same in
        let (ast, parsed, count, label) =
          prepare_worker-addresses parse_mlog code built.worker name n (prepared ∙ ap ok worker_is)
            known in
        let its : output ≡ worker.1 = ok-injective output worker.1 (sym located ∙ placed) in
        let behind_controller : read_text controller.2 output ≡ read_text worker.2 output =
          ap (λ f. read_text f output) files_are
          ∙ read_text-write_text_other worker.2 controller.1 controller.0 output
              (λ clash. c (out ∙ ap ok clash)) in
        let behind_debugger =
          render_or_read-spares jinja sources.debugger controller.2 debugger.0 debugger.1 output
            debugged d in
        let behind_display =
          render_or_read-spares jinja sources.display debugger.1 display.0 display.1 output
            displayed e in
        (
          (
            worker.2,
            loaded,
            found,
            ap
                  (λ w.
                    jinja.render
                      (create_jinja_env (parent sources.controller) (local_variables ∷ [])) loaded
                      (controller_arguments sources w.worker_labels pages ++ sources.inputs))
                  (sym worker_is)
                ∙ rendered
                ∙ ap (λ b. ok b.controller_code) same,
          ),
          (ast, parsed, label),
          ap (λ b. read_text b.files output) (sym same)
              ∙ behind_display
              ∙ behind_debugger
              ∙ behind_controller
              ∙ ap (read_text worker.2) its
              ∙ held
              ∙ ap (λ w. ok w.worker_code) worker_is,
        )

    -- If `build` makes the codes, and no other template is rendered to the worker's file, then the template
    -- of the controller was rendered with the instructions, the CSRs, the worker's labels under the name
    -- `labels` and the table of the pages in front of the inputs, which gave the controller's code; each of these labels is an address in the worker's final
    -- code, in front of which stand as many statements; and the worker's file holds this final code.
    pub codes_for-labels :
        (files : Files) (built : CodesBuild) (output : FilePath) (name : Text) (n : ℕ)
        → codes_for jinja parse_mlog sources pages files ≡ ok built
        → get_template_output_path sources.worker ≡ ok output
        → get_template_output_path sources.controller ≢ ok output
        → get_template_output_path sources.debugger ≢ ok output
        → get_template_output_path sources.display ≢ ok output
        → lookup built.worker.worker_labels name ≡ some n
        → IsControlled built.worker.worker_labels built.controller_code
          × ((ast : Ast) × (parse_mlog built.worker.worker_code ≡ ok ast) × HasLabel ast name n)
          × (read_text built.files output ≡ ok built.worker.worker_code)
    unfolding codes_for
    codes_for-labels files built output name n h located c d e known =
        let (worker, made, h1) = bind-eq-ok (worker_for jinja parse_mlog sources pages files) _ h in
        let (controller, controlled, h2) =
          bind-eq-ok (controller_for jinja parse_mlog sources pages worker.0.worker_labels worker.2)
            _ h1 in
        let (debugger, debugged, h3) =
          bind-eq-ok (rendering (render_or_read jinja sources.debugger controller.2)) _ h2 in
        let (display, displayed, h4) =
          bind-eq-ok (rendering (render_or_read jinja sources.display debugger.1)) _ h3 in
        codes_built files built output name n worker controller debugger display made controlled
          (rendering-ok (render_or_read jinja sources.debugger controller.2) debugger debugged)
          (rendering-ok (render_or_read jinja sources.display debugger.1) display displayed)
          (ok-injective _ built h4) located c d e known
