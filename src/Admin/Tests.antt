-- ===== src/Admin/Tests.antt =====
-- The admin socket on a machine with one file, which every path names.
use onetimelink.Admin.{
  AdminError, FileSystem, Server, clear_stale_socket, serve, FileInfo, OsError, close, file_id,
  enoent, other_error, socket_mode, econnrefused, FileIdent,
}
use onetimelink.Admin.Laws.{File, IsFileSystem}
use onetimelink.Prelude.{
  Option, ℕ, false, none, some, true, refl, ◌≡◌, if◌then◌else◌, arith, ap, inl, length, inr,
  Option-cases, [], Bool,
}
use onetimelink.Prelude.Result.{Result, err, ok}
use onetimelink.Prelude.Text.{Bytes, codes, str_eq}
use onetimelink.Admin.Start.{close-spares, serve-spares, serve_started}
use onetimelink.Admin.Report.{Report, snapshot}
use onetimelink.Http.{Request}
use onetimelink.Store.{new}
use onetimelink.Prelude.Int.{pos}

abbrev Machine : Type 0
Machine = Option File

info : File → FileInfo
info f = record { is_socket = f.socket; ident = some f.ident }

look : Machine → Result OsError FileInfo
look none = err enoent
look (some f) = ok (info f)

connect : Machine → Option OsError
connect none = some enoent
connect (some f) = if f.live then none else some econnrefused

unlink : Machine → Machine × Option OsError
unlink none = (none, some enoent)
unlink (some f) = (none, none)

abbrev made : File
made = record { ident = record { dev = 1; ino = 7 }; socket = true; live = true; mode = 0 }

-- A listener is whether it unlinks its path.
bind : Machine → Machine × Result OsError Bool
bind none = (some made, ok true)
bind (some f) = (some f, err (other_error (codes "address in use")))

lock : Machine → ℕ → Machine × Option OsError
lock none m = (none, some enoent)
lock (some f) m = (some (record f { mode = m }), none)

hang_up : Machine → Bool → Machine
hang_up w true = none
hang_up w false = w

abbrev machine : FileSystem Machine Bool
machine = record {
  lstat = λ w p. look w;
  stat = λ w p. look w;
  dial = λ w p. connect w;
  remove = λ w p. unlink w;
  listen = λ w p. bind w;
  is_unix = λ ln. true;
  set_unlink_on_close = λ ln b. b;
  close = λ w ln. hang_up w ln;
  shutdown = λ w ln. (hang_up w ln, none);
  chmod = λ w p m. lock w m;
}

abbrev the_file : Machine → Bytes → Option File
the_file w p = w

machine-IsFileSystem : IsFileSystem machine the_file (λ ln. ln)
unfolding hang_up look connect unlink bind lock info
machine-IsFileSystem = record {
  lstat_socket = λ w p fi f looked socket there. ground arith;
  lstat_missing = λ w p gone. elim (Option-cases w) [
    | inl empty ↦ empty
    | inr (f, full) ↦ absurd (ground arith)
  ];
  stat_file = λ w p fi id f looked known there. ground arith;
  dial_live = λ w p f x refused there live. ground arith;
  remove_done = λ w p done. elim (Option-cases w) [
    | inl empty ↦ rw empty refl
    | inr (f, full) ↦ rw full refl
  ];
  remove_failed = λ w p x failed. elim (Option-cases w) [
    | inl empty ↦ rw empty refl
    | inr (f, full) ↦ absurd (ground arith)
  ];
  listen_done = λ w p ln done. elim (Option-cases w) [
    | inl empty ↦ rw empty (made, refl, refl, refl)
    | inr (f, full) ↦ absurd (ground arith)
  ];
  chmod_done = λ w p m f done there. rw there refl;
  listen_unix = λ w p ln done. refl;
  set_unlink_done = λ ln b unix. refl;
  shutdown_file = λ w ln p f kept there. (f, rw kept there, refl);
}

abbrev path : Bytes
path = codes "s"

-- A text file, a socket without a listener, and the server that made `made`.
abbrev notes : File
notes = record { ident = record { dev = 1; ino = 3 }; socket = false; live = false; mode = 0 }

abbrev stale : File
stale = record { ident = record { dev = 1; ino = 4 }; socket = true; live = false; mode = 0 }

abbrev server : Server Bool
server = record { listener = false; path = path; id = made.ident }

close-spares_example :
    (f : File) × (the_file (close machine (some stale) (some server)).0 path ≡ some f)
    × (f.ident ≡ stale.ident)
unfolding serve clear_stale_socket file_id look connect unlink bind lock info str_eq
close-spares_example =
    close-spares machine the_file (λ ln. ln) machine-IsFileSystem none (some stale) path server
      stale refl refl (λ e. omega (arith, ap FileIdent.ino e))

serve-spares_example : (x : AdminError) × (serve machine (some made) path ≡ (some made, err x))
serve-spares_example =
    serve-spares machine the_file (λ ln. ln) machine-IsFileSystem (some made) path made
      (λ e. omega (arith, ap length e)) refl (inr refl)

serve_started_example :
    (server.path ≡ path)
    × ((f : File) → the_file (some stale) path ≡ some f → (f.socket ≡ true) × (f.live ≡ false))
    × ((f : File) × (the_file (serve machine (some stale) path).0 path ≡ some f)
        × (f.socket ≡ true)
        × (f.live ≡ true)
        × (f.mode ≡ socket_mode)
        × (f.ident ≡ server.id))
unfolding serve clear_stale_socket file_id look connect unlink bind lock info str_eq
serve_started_example =
    serve_started machine the_file (λ ln. ln) machine-IsFileSystem (some stale) path server refl

-- A request for the report of an empty store, and a JSON reader that knows it.
abbrev report_request : Request
report_request = record {
  method = codes "GET";
  path = codes "/stats";
  query = λ name. [];
  header = λ name. [];
  body = some [];
  remote_addr = [];
}

abbrev empty_report : Report
empty_report = snapshot (new (pos 0)) [] (pos 1) (pos 2)
