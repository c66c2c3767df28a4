-- ===== src/Admin/Socket.antt =====
-- Clearing the path of the admin socket, and closing its server.
use onetimelink.Admin.{
  FileSystem, is_same, FileIdent, clear_stale_socket, close, remove_if_ours, file_id, Server,
  FileInfo, OsError, is_enoent, enoent, is_econnrefused, other_error, econnrefused,
}
use onetimelink.Admin.Laws.{File, IsFileSystem}
use onetimelink.Prelude.{
  ◌≡◌, Option, false, true, ◌↔◌, ◌⊎◌, arith, none, some, ◌≢◌, inr, inl, Bool-cases, Option-cases,
  refl, sym, not, ◌∙◌, ◌&&◌, Bool,
}
use onetimelink.Prelude.Text.{Bytes}
use onetimelink.Prelude.Result.{Result-cases, ok}

is_same_iff : (a b : FileIdent) → (is_same a b ≡ true) ↔ (a ≡ b)
unfolding is_same
is_same_iff a b = (λ h. ground arith, λ h. ground arith)

enoent_of : (x : OsError) → is_enoent x ≡ true → x ≡ enoent
enoent_of enoent h = refl
enoent_of econnrefused h = absurd (ground arith)
enoent_of (other_error text) h = absurd (ground arith)

-- Something that must not be deleted: no socket, or one that somebody listens on.
abbrev pub IsPrecious : File → Type 0
IsPrecious f = (f.socket ≡ false) ⊎ (f.live ≡ true)

module _ {World Listener : Type 0} (fs : FileSystem World Listener)
    (file_at : World → Bytes → Option File) (unlinks : Listener → Bool)
    (laws : IsFileSystem fs file_at unlinks) where
  -- Clearing the path reports an error and deletes nothing where the path names something that is not
  -- a socket or that somebody listens on.
  pub clear_stale_socket-spares :
      (w : World) (p : Bytes) (f : File)
      → file_at w p ≡ some f
      → IsPrecious f
      → ((clear_stale_socket fs w p).0 ≡ w) × ((clear_stale_socket fs w p).1 ≢ none)
  unfolding clear_stale_socket
  clear_stale_socket-spares w p f there precious = elim (Result-cases (fs.lstat w p)) [
    | inr (x, failed) ↦ elim (Bool-cases (is_enoent x)) [
      | inl gone ↦ absurd (ground (arith, laws.lstat_missing w p, enoent_of x gone))
      | inr strange ↦ rw (failed, clear_stale_socket, strange) (refl, λ e. absurd (ground arith))
    ]
    | inl (fi, looked) ↦ elim (Bool-cases fi.is_socket) [
      | inr other ↦ rw (looked, clear_stale_socket, other) (refl, λ e. absurd (ground arith))
      | inl socket ↦ elim (Option-cases (fs.dial w p)) [
        | inl answered ↦
            rw (looked, clear_stale_socket, socket, answered) (refl, λ e. absurd (ground arith))
        | inr (x, refused) ↦
            let (open_there, not_gone) = kept fi x looked socket refused precious in
            rw (looked, clear_stale_socket, socket, refused, open_there, not_gone)
              (refl, λ e. absurd (ground arith))
      ]
    ]
  ]
    where
      kept :
          (fi : FileInfo) (x : OsError)
          → fs.lstat w p ≡ ok fi
          → fi.is_socket ≡ true
          → fs.dial w p ≡ some x
          → IsPrecious f
          → (is_econnrefused x ≡ false) × (is_enoent x ≡ false)
      kept fi x looked socket refused (inl regular) =
          absurd (ground (arith, laws.lstat_socket w p fi f looked socket there))
      kept fi x looked socket refused (inr live) = laws.dial_live w p f x refused there live

  -- Where clearing the path reports no error, the path names no file afterwards.
  pub clear_stale_socket-clears :
      (w : World) (p : Bytes)
      → (clear_stale_socket fs w p).1 ≡ none
      → file_at (clear_stale_socket fs w p).0 p ≡ none
  unfolding clear_stale_socket
  clear_stale_socket-clears w p clear = elim (Result-cases (fs.lstat w p)) [
    | inr (x, failed) ↦ elim (Bool-cases (is_enoent x)) [
      | inl gone ↦
          rw (failed, clear_stale_socket, gone)
            (laws.lstat_missing w p (ground (arith, enoent_of x gone)))
      | inr strange ↦ absurd (ground arith)
    ]
    | inl (fi, looked) ↦ elim (Bool-cases fi.is_socket) [
      | inr other ↦ absurd (ground arith)
      | inl socket ↦ elim (Option-cases (fs.dial w p)) [
        | inl answered ↦ absurd (ground arith)
        | inr (x, refused) ↦ elim (Bool-cases (not (is_econnrefused x) && not (is_enoent x))) [
          | inl unsure ↦ absurd (ground arith)
          | inr stale ↦ elim (Option-cases (fs.remove w p).1) [
            | inl done ↦
                rw (looked, clear_stale_socket, socket, refused, stale) (laws.remove_done w p done)
            | inr (y, stuck) ↦ absurd (ground arith)
          ]
        ]
      ]
    ]
  ]

  remove_if_ours_foreign :
      (w : World) (p : Bytes) (id : FileIdent) (f : File)
      → file_at w p ≡ some f
      → f.ident ≢ id
      → remove_if_ours fs w p id ≡ w
  unfolding remove_if_ours file_id
  remove_if_ours_foreign w p id f there others = elim (Result-cases (fs.stat w p)) [
    | inr (x, failed) ↦ rw (remove_if_ours, file_id, failed) refl
    | inl (fi, found) ↦ elim (Option-cases fi.ident) [
      | inl unknown ↦ rw (remove_if_ours, file_id, found, unknown) refl
      | inr (current, known) ↦ elim (Bool-cases (is_same current id)) [
        | inr foreign ↦ rw (remove_if_ours, file_id, found, known, foreign) refl
        | inl ours ↦ absurd (
            others (
              sym (laws.stat_file w p fi current f found known there)
              ∙ (is_same_iff current id).0 ours))
      ]
    ]
  ]

  -- The listener of a server may have been told not to unlink its path.
  pub close_kept :
      (w : World) (s : Server Listener) (f : File)
      → unlinks s.listener ≡ false
      → file_at w s.path ≡ some f
      → f.ident ≢ s.id
      → (f' : File) × (file_at (close fs w (some s)).0 s.path ≡ some f') × (f'.ident ≡ f.ident)
  unfolding close
  close_kept w s f kept there others =
      let (f', there', same) = laws.shutdown_file w s.listener s.path f kept there in
      let foreign : f'.ident ≢ s.id = λ e. others (sym same ∙ e) in
      rw (remove_if_ours_foreign (fs.shutdown w s.listener).0 s.path s.id f' there' foreign)
        (f', there', same)
