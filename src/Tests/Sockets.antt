-- ===== src/Tests/Sockets.antt =====
-- A server, at a small state.
use no_js.Base.{
  ℕ, ◌==◌, ◌≡◌, refl, sym, ◌∙◌, if◌then◌else◌, Bool-cases, inl, inr, false, some, ok, ◌>>=◌,
  Returns,
}
use no_js.Base.Dict.{find}
use no_js.Base.Int.{ℤ, pos}
use no_js.Env.{Environment, prep_accept}
use no_js.Async.{JavaScript}
use no_js.Io.{read_call}
use no_js.Net.{is_minus_one}
use no_js.Loop.{complete}
use no_js.Loop.Calls.{Calls}
use no_js.Loop.Calls
use no_js.Loop.Connections.{ListensAt}
use no_js.Libs.Tcp.{ServerSocket, read_arguments, socket_read, new_connection, server}
use no_js.Libs.Tcp.Reading.{socket_reading, socket_read_lem}
use no_js.Libs.Tcp.Serving.{IsRead, complete-server}
use no_js.Tests.{machine, start, view}
use no_js.Tests.Libraries.{buffer_of, silent}

abbrev client : ℤ → ServerSocket
client v = record { fd = v; on_status = 7 }

-- Function 9 is the one that the server gives to `listen`, and the listeners do nothing.
abbrev accepts : JavaScript
accepts f v s = if f == 9 then socket_reading (client v) view s else s

accepts-Calls : (f : ℕ) (v : ℤ) (s : Environment) → Calls s (accepts f v s)
accepts-Calls f v s = elim (Bool-cases (f == 9)) [
  | inl nine ↦
      rw nine (Calls.then_call Calls.done (Calls.reads (read_arguments (client v) view) submitted))
  | inr other ↦ rw other Calls.done
]
  where
    submitted : read_call (read_arguments (client v) view) s ≡ ok (socket_reading (client v) view s)
    submitted = unfold socket_read in socket_read_lem buffer_of silent (client v) s

runs :
    (v : ℤ) (s t : Environment)
    → new_connection buffer_of silent (λ u. u) (client v) s ≡ ok t
    → accepts 9 v s ≡ t
runs v s t e = cc (sym submitted ∙ e)
  where
    submitted :
        new_connection buffer_of silent (λ u. u) (client v) s
        ≡ ok (socket_reading (client v) view s)
    submitted =
        unfold new_connection in (rw (socket_read_lem buffer_of silent (client v) s, ◌>>=◌) refl)

listens : is_minus_one (pos 0) ≡ false
unfolding is_minus_one
listens = refl

complete-server_example :
    Returns
      (λ v.
        (find 1 v.1.ring ≡ some (prep_accept (pos 4) 0))
        × Returns
            (λ u.
              ListensAt 1 (pos 4) 9 (pos 6) u
              × (find 1 u.ring ≡ some (prep_accept (pos 4) 0))
              × IsRead (pos 6) 7 u)
            (complete accepts machine (1, pos 6) v.1))
      (server (pos 4) 9 (pos 0) start)
complete-server_example =
    complete-server buffer_of silent (λ u. u) (λ u. Calls.done) accepts accepts-Calls machine 9
      (λ v. 7) runs (pos 4) (pos 0) (pos 6) start listens
