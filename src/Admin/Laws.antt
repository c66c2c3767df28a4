-- ===== src/Admin/Laws.antt =====
-- What the code relies on of the operating system: documented behaviour of the calls, in terms of the
-- file that a path names.
use onetimelink.Admin.{FileIdent, FileSystem, FileInfo, enoent, OsError, is_econnrefused, is_enoent}
use onetimelink.Prelude.{Bool, Option, ℕ, ◌≡◌, true, some, none, false}
use onetimelink.Prelude.Text.{Bytes}
use onetimelink.Prelude.Result.{ok, err}

pub record File : Type 0 where
  pub ident : FileIdent
  -- Whether it is a socket, whether somebody listens on it, and its permissions.
  pub socket : Bool
  pub live : Bool
  pub mode : ℕ

-- `file_at` says which file a path names, `unlinks` whether a listener unlinks its path when it closes.
-- Every law is about one call and one path.
pub record IsFileSystem {World Listener : Type 0} (fs : FileSystem World Listener)
    (file_at : World → Bytes → Option File) (unlinks : Listener → Bool) : Type 0 where
  -- Lstat does not follow a link, so what it calls a socket is one.
  pub lstat_socket :
      (w : World) (p : Bytes) (fi : FileInfo) (f : File)
      → fs.lstat w p ≡ ok fi
      → fi.is_socket ≡ true
      → file_at w p ≡ some f
      → f.socket ≡ true
  pub lstat_missing : (w : World) (p : Bytes) → fs.lstat w p ≡ err enoent → file_at w p ≡ none
  pub stat_file :
      (w : World) (p : Bytes) (fi : FileInfo) (id : FileIdent) (f : File)
      → fs.stat w p ≡ ok fi
      → fi.ident ≡ some id
      → file_at w p ≡ some f
      → id ≡ f.ident
  -- Only a socket without a listener refuses a connection.
  pub dial_live :
      (w : World) (p : Bytes) (f : File) (x : OsError)
      → fs.dial w p ≡ some x
      → file_at w p ≡ some f
      → f.live ≡ true
      → (is_econnrefused x ≡ false) × (is_enoent x ≡ false)
  pub remove_done :
      (w : World) (p : Bytes) → (fs.remove w p).1 ≡ none → file_at (fs.remove w p).0 p ≡ none
  pub remove_failed :
      (w : World) (p : Bytes) (x : OsError)
      → (fs.remove w p).1 ≡ some x
      → file_at (fs.remove w p).0 p ≡ file_at w p
  -- Listen makes a new file, and fails if there is one.
  pub listen_done :
      (w : World) (p : Bytes) (ln : Listener)
      → (fs.listen w p).1 ≡ ok ln
      → (f : File) × (file_at (fs.listen w p).0 p ≡ some f) × (f.socket ≡ true) × (f.live ≡ true)
  pub chmod_done :
      (w : World) (p : Bytes) (m : ℕ) (f : File)
      → (fs.chmod w p m).1 ≡ none
      → file_at w p ≡ some f
      → file_at (fs.chmod w p m).0 p ≡ some (record f { mode = m })
  -- Listen on the network "unix" gives a *net.UnixListener, and SetUnlinkOnClose says what it does when
  -- it closes.
  pub listen_unix :
      (w : World) (p : Bytes) (ln : Listener) → (fs.listen w p).1 ≡ ok ln → fs.is_unix ln ≡ true
  pub set_unlink_done :
      (ln : Listener) (b : Bool) → fs.is_unix ln ≡ true → unlinks (fs.set_unlink_on_close ln b) ≡ b
  -- A server that stops closes its listener, which leaves every file where it is unless it unlinks.
  pub shutdown_file :
      (w : World) (ln : Listener) (p : Bytes) (f : File)
      → unlinks ln ≡ false
      → file_at w p ≡ some f
      → (f' : File) × (file_at (fs.shutdown w ln).0 p ≡ some f') × (f'.ident ≡ f.ident)
