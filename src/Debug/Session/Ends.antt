-- ===== src/Debug/Session/Ends.antt =====
-- python/src/mlogv32/scripts/debug.py: the rounds of `main` up to the status in which the processor no
-- longer runs.
use mlogv.Prelude.{
  ℕ, zero, suc, ◌≤◌, ◌≡◌, refl, sym, ap, subst, ◌∙◌, Bool, true, false, Option, some, List, [], ◌∷◌,
  ◌++◌, append_assoc, Text, length, arith, All, Result, ok, err, if◌then◌else◌,
}
use mlogv.Access.{
  Request, Response, success, status, StatusResponse, Socket, start, wait, unpause, get_status,
  Reply, status_reply, success_reply, socket_reply, AccessError, perform, other_lines, first_line,
  matched, request_for, recv_response, send_request,
}
use mlogv.Debug.{DebugError, format_status}
use mlogv.Debug.Session.{
  Session, Ended, stopped, noted, written, at_socket, behind_unpause, behind_log, behind_format,
  behind_status, behind_wait, round, next_rounds, rounds, begun, shown, connected, main,
}

-- The call succeeds, and these lines are still to arrive.
abbrev Gives : List Text → Result AccessError Reply × Socket → Type 0
Gives rest (err e, s) = ⊥
Gives rest (ok reply, s) = s.incoming ≡ rest

abbrev GivesStatus : StatusResponse → List Text → Result AccessError Reply × Socket → Type 0
GivesStatus st rest (ok (status_reply st'), s) = (st' ≡ st) × (s.incoming ≡ rest)
GivesStatus st rest _ = ⊥

-- The round ends without an exception.
abbrev Reads : Bool → List Text → List StatusResponse → Result DebugError Bool × Session → Type 0
Reads more rest results (err e, s) = ⊥
Reads more rest results (ok more', s) =
    (more' ≡ more) × (s.socket.incoming ≡ rest) × (s.results ≡ results)

-- The loop stops with these results, and these lines are not read.
abbrev Stops : List Text → List StatusResponse → Ended × Session → Type 0
Stops rest results run =
    (run.0 ≡ stopped) × (run.1.socket.incoming ≡ rest) × (run.1.results ≡ results)

module _ (model_dump_json : Request → Text) (validate_json : Text → Option Response)
    (is_absolute : Text → Bool) (sail : Bool) (done_line message : Text)
    (line_of : StatusResponse → Text) where
  -- What the processor answers in a round of each running status: to `wait`, to `status` and to
  -- `unpause`.
  abbrev pub round_lines : List StatusResponse → List Text
  round_lines [] = []
  round_lines (st ∷ statuses) = done_line ∷ line_of st ∷ done_line ∷ round_lines statuses

  -- What the processor answers in a session, and further lines.
  abbrev pub session_lines :
      StatusResponse → List StatusResponse → StatusResponse → List Text → List Text
  session_lines first statuses last rest =
      line_of first ∷ done_line ∷ (round_lines statuses ++ (done_line ∷ line_of last ∷ rest))

  -- The line of the status is read as the status, and the status can be formatted.
  abbrev pub IsReadable : StatusResponse → Type 0
  IsReadable st =
      (validate_json (line_of st) ≡ some (status st))
      × (text : Text) × (format_status sail st ≡ ok text)

  -- the calls over a socket on which the line for success, or that of the status, comes first
  module _ (done : validate_json done_line ≡ some (success message)) where
    unpause-Gives :
        (s : Socket) (rest : List Text)
        → s.incoming ≡ done_line ∷ rest
        → Gives rest (perform model_dump_json validate_json is_absolute unpause s)
    unfolding perform request_for recv_response send_request first_line other_lines matched
    unpause-Gives s rest e = rw (e, done) refl

    wait-Gives :
        (s : Socket) (rest : List Text)
        → s.incoming ≡ done_line ∷ rest
        → Gives rest (perform model_dump_json validate_json is_absolute (wait true true) s)
    unfolding perform request_for recv_response send_request first_line other_lines matched
    wait-Gives s rest e = rw (e, done) refl

    resume-Gives :
        (running : Bool) (s : Socket) (rest : List Text)
        → s.incoming ≡ done_line ∷ rest
        → Gives rest (
            perform model_dump_json validate_json is_absolute
              (if running then unpause else start true)
              s)
    unfolding perform request_for recv_response send_request first_line other_lines matched
    resume-Gives true s rest e = rw (e, done) refl
    resume-Gives false s rest e = rw (e, done) refl

    status-GivesStatus :
        (s : Socket) (st : StatusResponse) (rest : List Text)
        → IsReadable st
        → s.incoming ≡ line_of st ∷ rest
        → GivesStatus st rest (perform model_dump_json validate_json is_absolute get_status s)
    unfolding perform request_for recv_response send_request first_line other_lines matched
    status-GivesStatus s st rest (readable, text, shown) e = rw (e, readable) (refl, refl)

    behind_unpause-Reads :
        (answer : Result AccessError Reply × Socket) (s : Session) (rest : List Text)
        (results : List StatusResponse)
        → Gives rest answer
        → s.results ≡ results
        → Reads true rest results
            (behind_unpause model_dump_json validate_json is_absolute sail answer s)
    unfolding behind_unpause
    behind_unpause-Reads (err e, socket) s rest results h r = elim h [ ]
    behind_unpause-Reads (ok reply, socket) s rest results h r = (refl, h, r)

    -- the lines of a round behind its status
    abbrev left : Bool → List Text → List Text
    left true rest = done_line ∷ rest
    left false rest = rest

    behind_log-Reads :
        (running : Bool) (s : Session) (rest : List Text) (results : List StatusResponse)
        → s.socket.incoming ≡ left running rest
        → s.results ≡ results
        → Reads running rest results
            (behind_log model_dump_json validate_json is_absolute sail running s)
    unfolding behind_log
    behind_log-Reads false s rest results h r = (refl, h, r)
    behind_log-Reads true s rest results h r =
        behind_unpause-Reads (perform model_dump_json validate_json is_absolute unpause s.socket) s
          rest results (unpause-Gives s.socket rest h) r

    behind_format-Reads :
        (running : Bool) (formatted : Result DebugError Text) (text : Text) (s : Session)
        (rest : List Text) (results : List StatusResponse)
        → formatted ≡ ok text
        → s.socket.incoming ≡ left running rest
        → s.results ≡ results
        → Reads running rest results
            (behind_format model_dump_json validate_json is_absolute sail running formatted s)
    unfolding behind_format written
    behind_format-Reads running (err e) text s rest results f h r = cc
    behind_format-Reads running (ok formatted) text s rest results f h r =
        behind_log-Reads running (written sail s formatted) rest results h r

    behind_status-Reads :
        (answer : Result AccessError Reply × Socket) (st : StatusResponse) (s : Session)
        (rest : List Text)
        → IsReadable st
        → GivesStatus st (left st.running rest) answer
        → Reads st.running rest
            (s.results ++ (st ∷ []))
            (behind_status model_dump_json validate_json is_absolute sail answer s)
    unfolding behind_status noted
    behind_status-Reads (err e, socket) st s rest readable h = elim h [ ]
    behind_status-Reads (ok (success_reply m), socket) st s rest readable h = elim h [ ]
    behind_status-Reads (ok socket_reply, socket) st s rest readable h = elim h [ ]
    behind_status-Reads (ok (status_reply st'), socket) st s rest (readable, text, shown)
          (same, h) =
        rw same (
          behind_format-Reads st.running (format_status sail st) text
            (noted (at_socket s socket) st) rest (s.results ++ (st ∷ [])) shown h refl)

    behind_wait-Reads :
        (answer : Result AccessError Reply × Socket) (st : StatusResponse) (s : Session)
        (rest : List Text)
        → IsReadable st
        → Gives (line_of st ∷ left st.running rest) answer
        → Reads st.running rest
            (s.results ++ (st ∷ []))
            (behind_wait model_dump_json validate_json is_absolute sail answer s)
    unfolding behind_wait
    behind_wait-Reads (err e, socket) st s rest readable h = elim h [ ]
    behind_wait-Reads (ok reply, socket) st s rest readable h =
        behind_status-Reads (perform model_dump_json validate_json is_absolute get_status socket) st
          (at_socket s socket) rest readable
          (status-GivesStatus socket st (left st.running rest) readable h)

    round-Reads :
        (st : StatusResponse) (s : Session) (rest : List Text)
        → IsReadable st
        → s.socket.incoming ≡ done_line ∷ line_of st ∷ left st.running rest
        → Reads st.running rest
            (s.results ++ (st ∷ []))
            (round model_dump_json validate_json is_absolute sail s)
    unfolding round
    round-Reads st s rest readable h =
        behind_wait-Reads
          (perform model_dump_json validate_json is_absolute (wait true true) s.socket) st s rest
          readable (wait-Gives s.socket (line_of st ∷ left st.running rest) h)

    next_rounds-Stops :
        (fuel : ℕ) (r : Result DebugError Bool × Session) (rest : List Text)
        (results : List StatusResponse)
        → Reads false rest results r
        → Stops rest results (next_rounds model_dump_json validate_json is_absolute sail fuel r)
    unfolding next_rounds
    next_rounds-Stops fuel (err e, s) rest results h = elim h [ ]
    next_rounds-Stops fuel (ok true, s) rest results (h, e, r) = cc
    next_rounds-Stops fuel (ok false, s) rest results (h, e, r) = (refl, e, r)

    next_rounds-continues :
        (fuel : ℕ) (r : Result DebugError Bool × Session) (more rest : List Text)
        (seen results : List StatusResponse)
        → Reads true more seen r
        → ((s : Session)
            → s.socket.incoming ≡ more
            → s.results ≡ seen
            → Stops rest results (rounds model_dump_json validate_json is_absolute sail fuel s))
        → Stops rest results
            (next_rounds model_dump_json validate_json is_absolute sail (suc fuel) r)
    unfolding next_rounds rounds
    next_rounds-continues fuel (err e, s) more rest seen results h later = elim h [ ]
    next_rounds-continues fuel (ok false, s) more rest seen results (h, e, r) later = cc
    next_rounds-continues fuel (ok true, s) more rest seen results (h, e, r) later = later s e r

    rounds-Stops :
        (statuses : List StatusResponse) (last : StatusResponse) (fuel : ℕ) (s : Session)
        (rest : List Text) (results : List StatusResponse)
        → length statuses ≤ fuel
        → All IsReadable statuses
        → All (λ st. st.running ≡ true) statuses
        → IsReadable last
        → last.running ≡ false
        → s.socket.incoming ≡ round_lines statuses ++ (done_line ∷ line_of last ∷ rest)
        → s.results ≡ results
        → Stops rest
            (results ++ (statuses ++ (last ∷ [])))
            (rounds model_dump_json validate_json is_absolute sail fuel s)
    unfolding rounds
    rounds-Stops [] last fuel s rest results enough all running readable stops h r =
        next_rounds-Stops fuel (round model_dump_json validate_json is_absolute sail s) rest
          (results ++ (last ∷ []))
          (subst
            (λ b.
              Reads b rest (results ++ (last ∷ []))
                (round model_dump_json validate_json is_absolute sail s))
            stops
            (subst
              (λ l.
                Reads last.running rest (l ++ (last ∷ []))
                  (round model_dump_json validate_json is_absolute sail s))
              r
              (round-Reads last s rest readable
                (h ∙ ap (λ b. done_line ∷ line_of last ∷ left b rest) (sym stops)))))
    rounds-Stops (st ∷ statuses) last zero s rest results enough all running readable stops h r =
        absurd (omega arith)
    rounds-Stops (st ∷ statuses) last (suc fuel) s rest results enough (shown, all) (runs, running)
          readable stops h r =
        let more = round_lines statuses ++ (done_line ∷ line_of last ∷ rest) in
        next_rounds-continues fuel (round model_dump_json validate_json is_absolute sail s) more
          rest (results ++ (st ∷ [])) (results ++ ((st ∷ statuses) ++ (last ∷ [])))
          (subst
            (λ b.
              Reads b more (results ++ (st ∷ []))
                (round model_dump_json validate_json is_absolute sail s))
            runs
            (subst
              (λ l.
                Reads st.running more (l ++ (st ∷ []))
                  (round model_dump_json validate_json is_absolute sail s))
              r
              (round-Reads st s more shown
                (h ∙ ap (λ b. done_line ∷ line_of st ∷ left b more) (sym runs)))))
          (λ s' e r'.
            subst
              (λ l. Stops rest l (rounds model_dump_json validate_json is_absolute sail fuel s'))
              (append_assoc results (st ∷ []) (statuses ++ (last ∷ [])))
              (rounds-Stops statuses last fuel s' rest (results ++ (st ∷ []))
                (omega (arith, enough)) all running readable stops e r'))

    -- The session stops, `json_output` gets these statuses, and these lines are not read.
    abbrev pub EndsAt :
        List Text → List StatusResponse → Ended × Session × Option (List StatusResponse) → Type 0
    EndsAt rest results run =
        (run.0 ≡ stopped) × (run.1.socket.incoming ≡ rest) × (run.2 ≡ some results)

    module _ (first : StatusResponse) (statuses : List StatusResponse) (last : StatusResponse)
        (rest : List Text) (fuel : ℕ) where
      abbrev lines_behind : List Text
      lines_behind = round_lines statuses ++ (done_line ∷ line_of last ∷ rest)

      -- the session from its call for the first status on
      module _ (enough : length statuses ≤ fuel) (shown_first : IsReadable first)
          (all : All IsReadable statuses) (readable : IsReadable last)
          (running : All (λ st. st.running ≡ true) statuses) (stops : last.running ≡ false) where
        begun-EndsAt :
            (answer : Result AccessError Reply × Socket) (s : Session)
            → Gives lines_behind answer
            → s.results ≡ first ∷ []
            → EndsAt rest
                (first ∷ (statuses ++ (last ∷ [])))
                (begun model_dump_json validate_json is_absolute sail fuel answer s)
        unfolding begun
        begun-EndsAt (err e, socket) s h r = elim h [ ]
        begun-EndsAt (ok reply, socket) s h r =
            let (ended, unread, results) =
              rounds-Stops statuses last fuel (at_socket s socket) rest (first ∷ []) enough all
                running readable stops h r in
            (ended, unread, ap some results)

        shown-EndsAt :
            (formatted : Result DebugError Text) (text : Text) (socket : Socket)
            → formatted ≡ ok text
            → socket.incoming ≡ done_line ∷ lines_behind
            → EndsAt rest
                (first ∷ (statuses ++ (last ∷ [])))
                (shown model_dump_json validate_json is_absolute sail fuel first formatted socket)
        unfolding shown
        shown-EndsAt (err e) text socket f h = cc
        shown-EndsAt (ok formatted) text socket f h =
            begun-EndsAt _ _ (resume-Gives first.running socket lines_behind h) refl

        connected-EndsAt :
            (answer : Result AccessError Reply × Socket)
            → GivesStatus first (done_line ∷ lines_behind) answer
            → EndsAt rest
                (first ∷ (statuses ++ (last ∷ [])))
                (connected model_dump_json validate_json is_absolute sail fuel answer)
        unfolding connected
        connected-EndsAt (err e, socket) h = elim h [ ]
        connected-EndsAt (ok (success_reply m), socket) h = elim h [ ]
        connected-EndsAt (ok socket_reply, socket) h = elim h [ ]
        connected-EndsAt (ok (status_reply st), socket) (same, h) =
            rw same (shown-EndsAt (format_status sail first) shown_first.1 socket shown_first.2 h)

        -- Let the processor answer each call with success, and let it report a first status, then
        -- statuses in which it runs, then one in which it does not run, each of which can be read
        -- and formatted. With as much fuel as there are running statuses, the session stops at the
        -- last of them: `json_output` gets exactly these statuses, and no line behind them is read.
        pub main-EndsAt :
            (out : Text)
            → EndsAt rest (first ∷ (statuses ++ (last ∷ []))) (
                main model_dump_json validate_json is_absolute sail fuel
                  (record { out = out; incoming = session_lines first statuses last rest }))
        unfolding main
        main-EndsAt out = connected-EndsAt _ (
            status-GivesStatus
              (record { out = out; incoming = session_lines first statuses last rest }) first
              (done_line ∷ lines_behind) shown_first refl)
