-- ===== src/Admin/Start.antt =====
-- Starting the admin socket's server.
use onetimelink.Admin.{
  keep_file, close, FileSystem, FileInfo, FileIdent, serve, Server, file_id, clear_stale_socket,
  socket_mode, AdminError,
}
use onetimelink.Prelude.Text.{Bytes, str_eq, str_eq_iff}
use onetimelink.Prelude.{
  Option, ◌≢◌, [], ◌≡◌, none, some, Bool-cases, true, false, inr, arith, inl, Option-cases, ap, sym,
  refl, Bool, ◌∙◌,
}
use onetimelink.Admin.Laws.{File, IsFileSystem}
use onetimelink.Prelude.Result.{ok, Result-cases, err}
use onetimelink.Admin.Socket.{close_kept, IsPrecious, clear_stale_socket-spares}

module _ {World Listener : Type 0} (fs : FileSystem World Listener)
    (file_at : World → Bytes → Option File) (unlinks : Listener → Bool)
    (laws : IsFileSystem fs file_at unlinks) where
  -- Where the path, not empty, names something that is not a socket or that somebody listens on,
  -- starting a server reports an error and leaves everything as it was.
  pub serve-spares :
      (w : World) (p : Bytes) (f : File)
      → p ≢ []
      → file_at w p ≡ some f
      → IsPrecious f
      → (x : AdminError) × (serve fs w p ≡ (w, err x))
  unfolding serve
  serve-spares w p f named there precious =
      let unnamed : str_eq p [] ≡ false = ground (arith, str_eq_iff p []) in
      elim (Option-cases (clear_stale_socket fs w p).1) [
        | inl clear ↦
            absurd
              ((clear_stale_socket-spares fs file_at unlinks laws w p f there precious).1 clear)
        | inr (x, refused) ↦ (
          x,
          rw
              (
                serve,
                unnamed,
                refused,
                (clear_stale_socket-spares fs file_at unlinks laws w p f there precious).0,
              )
              refl,
        )
      ]

  file_id-stat :
      (w : World) (p : Bytes) (id : FileIdent)
      → file_id fs w p ≡ ok id
      → (fi : FileInfo) × (fs.stat w p ≡ ok fi) × (fi.ident ≡ some id)
  unfolding file_id
  file_id-stat w p id h = elim (Result-cases (fs.stat w p)) [
    | inr (x, failed) ↦ absurd (ground arith)
    | inl (fi, found) ↦ elim (Option-cases fi.ident) [
      | inl unknown ↦ absurd (ground arith)
      | inr (current, known) ↦ (fi, found, ground arith)
    ]
  ]

  -- The calls of a start that succeeds.
  record Started (w : World) (p : Bytes) (s : Server Listener) : Type 0 where
    clear : (clear_stale_socket fs w p).1 ≡ none
    ln : Listener
    listening : (fs.listen (clear_stale_socket fs w p).0 p).1 ≡ ok ln
    kept : s.listener ≡ keep_file fs ln
    known : file_id fs (fs.listen (clear_stale_socket fs w p).0 p).0 p ≡ ok s.id
    locked : (fs.chmod (fs.listen (clear_stale_socket fs w p).0 p).0 p socket_mode).1 ≡ none
    same_path : s.path ≡ p
    after :
        (serve fs w p).0 ≡ (fs.chmod (fs.listen (clear_stale_socket fs w p).0 p).0 p socket_mode).0

  serve-Started :
      (w : World) (p : Bytes) (s : Server Listener) → (serve fs w p).1 ≡ ok (some s) → Started w p s
  unfolding serve
  serve-Started w p s started = elim (Bool-cases (str_eq p [])) [
    | inl unnamed ↦ absurd (ground arith)
    | inr named ↦ elim (Option-cases (clear_stale_socket fs w p).1) [
      | inr (x, refused) ↦ absurd (ground arith)
      | inl clear ↦
          let cleared = (clear_stale_socket fs w p).0 in
          elim (Result-cases (fs.listen cleared p).1) [
            | inr (x, failed) ↦ absurd (ground arith)
            | inl (ln, listening) ↦
                let bound = (fs.listen cleared p).0 in
                elim (Result-cases (file_id fs bound p)) [
                  | inr (x, failed) ↦ absurd (ground arith)
                  | inl (id, known) ↦ elim (Option-cases (fs.chmod bound p socket_mode).1) [
                    | inr (x, failed) ↦ absurd (ground arith)
                    | inl locked ↦
                        let same : record { listener = keep_file fs ln; path = p; id = id } ≡ s =
                          ground arith in
                        record {
                          clear = clear;
                          ln = ln;
                          listening = listening;
                          kept = sym (ap Server.listener same);
                          known = rw (ap Server.id same) at known;
                          locked = locked;
                          same_path = sym (ap Server.path same);
                          after = rw (serve, named, clear, listening, known, locked) refl;
                        }
                  ]
                ]
          ]
    ]
  ]

  -- If a server starts, then a file that its path named before was a socket on which nobody listened,
  -- and the path now names a socket on which somebody listens, with permissions 0600 and the identity
  -- that the server remembers.
  pub serve_started :
      (w : World) (p : Bytes) (s : Server Listener)
      → (serve fs w p).1 ≡ ok (some s)
      → (s.path ≡ p)
        × ((f : File) → file_at w p ≡ some f → (f.socket ≡ true) × (f.live ≡ false))
        × ((f : File) × (file_at (serve fs w p).0 p ≡ some f)
            × (f.socket ≡ true)
            × (f.live ≡ true)
            × (f.mode ≡ socket_mode)
            × (f.ident ≡ s.id))
  unfolding serve
  serve_started w p s started =
      let steps = serve-Started w p s started in
      let cleared = (clear_stale_socket fs w p).0 in
      let bound = (fs.listen cleared p).0 in
      let (f, made, socket, live) = laws.listen_done cleared p steps.ln steps.listening in
      let (fi, found, known) = file_id-stat bound p s.id steps.known in
      (
        steps.same_path,
        λ old there. stale old (λ precious.
            (clear_stale_socket-spares fs file_at unlinks laws w p old there precious).1
              steps.clear),
        (
          record f { mode = socket_mode },
          rw steps.after (laws.chmod_done bound p socket_mode f steps.locked made),
          socket,
          live,
          refl,
          sym (laws.stat_file bound p fi s.id f found known made),
        ),
      )
    where
      stale : (f : File) → (IsPrecious f → ⊥) → (f.socket ≡ true) × (f.live ≡ false)
      stale f h = elim (Bool-cases f.socket) [
        | inr regular ↦ absurd (h (inl regular))
        | inl socket ↦ elim (Bool-cases f.live) [
          | inl live ↦ absurd (h (inr live))
          | inr dead ↦ (socket, dead)
        ]
      ]

  keep_file_lem : (ln : Listener) → fs.is_unix ln ≡ true → unlinks (keep_file fs ln) ≡ false
  keep_file_lem ln unix = rw unix (laws.set_unlink_done ln false unix)

  -- Closing a server that Serve has started, whatever has happened in between, keeps the file at its
  -- path if that is not the one it created.
  pub close-spares :
      (before w : World) (p : Bytes) (s : Server Listener) (f : File)
      → (serve fs before p).1 ≡ ok (some s)
      → file_at w s.path ≡ some f
      → f.ident ≢ s.id
      → (f' : File) × (file_at (close fs w (some s)).0 s.path ≡ some f') × (f'.ident ≡ f.ident)
  close-spares before w p s f started there others =
      let steps = serve-Started before p s started in
      let unix = laws.listen_unix (clear_stale_socket fs before p).0 p steps.ln steps.listening in
      close_kept fs file_at unlinks laws w s f (ap unlinks steps.kept ∙ keep_file_lem steps.ln unix)
        there others
