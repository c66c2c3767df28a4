-- ===== src/Admin.antt =====
-- admin/admin.go: the report and the socket that answers it. What the operating system does is a
-- parameter (`FileSystem`); each function runs without interference by other processes.
pub mod Laws
pub mod Socket
pub mod Start
pub mod Report
mod Tests
use mathlib.Core.Option
use onetimelink.Prelude.{
  ℕ, Bool, Option, none, some, if◌then◌else◌, not, true, false, ◌&&◌, [], ◌==◌,
}
use onetimelink.Prelude.Text.{Bytes, str_eq}
use onetimelink.Prelude.Result.{Result, ok, err}

-- The errors that the code tells apart, and all others.
pub data OsError : Type 0 where
  enoent : OsError
  econnrefused : OsError
  other_error : Bytes → OsError

abbrev pub is_enoent : OsError → Bool
is_enoent enoent = true
is_enoent econnrefused = false
is_enoent (other_error text) = false

abbrev pub is_econnrefused : OsError → Bool
is_econnrefused enoent = false
is_econnrefused econnrefused = true
is_econnrefused (other_error text) = false

pub record FileIdent : Type 0 where
  pub dev : ℕ
  pub ino : ℕ

unfoldable pub is_same : FileIdent → FileIdent → Bool
is_same a b = a.dev == b.dev && a.ino == b.ino

-- os.FileInfo: whether it is a socket, and the device and inode that Sys() gives where it is a Stat_t.
pub record FileInfo : Type 0 where
  pub is_socket : Bool
  pub ident : Option FileIdent

-- The calls of os and net: Lstat, Stat, DialTimeout (and Close of the connection), Remove, Listen,
-- whether the listener is a *net.UnixListener, its SetUnlinkOnClose, Close of a listener, Shutdown of the
-- server that serves it, and Chmod.
pub record FileSystem (World Listener : Type 0) : Type 0 where
  pub lstat : World → Bytes → Result OsError FileInfo
  pub stat : World → Bytes → Result OsError FileInfo
  pub dial : World → Bytes → Option OsError
  pub remove : World → Bytes → World × Option OsError
  pub listen : World → Bytes → World × Result OsError Listener
  pub is_unix : Listener → Bool
  pub set_unlink_on_close : Listener → Bool → Listener
  pub close : World → Listener → World
  pub shutdown : World → Listener → World × Option OsError
  pub chmod : World → Bytes → ℕ → World × Option OsError

pub data AdminError : Type 0 where
  os_error : OsError → AdminError
  not_a_socket : Bytes → AdminError
  is_live : Bytes → AdminError
  cannot_tell : Bytes → OsError → AdminError
  unidentified : Bytes → AdminError
  not_locked_down : Bytes → OsError → AdminError

-- 0o600
abbrev pub socket_mode : ℕ
socket_mode = 384

pub record Server (Listener : Type 0) : Type 0 where
  pub listener : Listener
  pub path : Bytes
  pub id : FileIdent

module _ {World Listener : Type 0} (fs : FileSystem World Listener) where
  unfoldable pub clear_stale_socket : World → Bytes → World × Option AdminError
  clear_stale_socket w path = elim (fs.lstat w path) [
    | err x ↦ if is_enoent x then (w, none) else (w, some (os_error x))
    | ok fi ↦ if not fi.is_socket then (w, some (not_a_socket path)) else elim (fs.dial w path) [
      | none ↦ (w, some (is_live path))
      | some x ↦
          if not (is_econnrefused x) && not (is_enoent x)
          then (w, some (cannot_tell path x))
          else let (w', failed) = fs.remove w path in (w', Option.map os_error failed)
    ]
  ]

  unfoldable pub file_id : World → Bytes → Result AdminError FileIdent
  file_id w path = elim (fs.stat w path) [
    | err x ↦ err (os_error x)
    | ok fi ↦ elim fi.ident [ none ↦ err (unidentified path) | some id ↦ ok id ]
  ]

  unfoldable pub remove_if_ours : World → Bytes → FileIdent → World
  remove_if_ours w path id = elim (file_id w path) [
    | err x ↦ w
    | ok current ↦ if is_same current id then (fs.remove w path).0 else w
  ]

  -- Go no longer unlinks the path when the listener closes.
  abbrev pub keep_file : Listener → Listener
  keep_file ln = if fs.is_unix ln then fs.set_unlink_on_close ln false else ln

  -- Serve, with a none for the nil server of an empty path.
  unfoldable pub serve : World → Bytes → World × Result AdminError (Option (Server Listener))
  serve w path =
      if str_eq path []
      then (w, ok none)
      else let (cleared, refused) = clear_stale_socket w path in
        elim refused [
          | some x ↦ (cleared, err x)
          | none ↦
              let (bound, listening) = fs.listen cleared path in
              elim listening [
                | err x ↦ (bound, err (os_error x))
                | ok ln ↦ elim (file_id bound path) [
                  | err x ↦ (fs.close bound (keep_file ln), err x)
                  | ok id ↦
                      let (locked, failed) = fs.chmod bound path socket_mode in
                      elim failed [
                        | some x ↦ (
                          remove_if_ours (fs.close locked (keep_file ln)) path id,
                          err (not_locked_down path x),
                        )
                        | none ↦ (
                          locked,
                          ok (some (record { listener = keep_file ln; path = path; id = id })),
                        )
                      ]
                ]
              ]
        ]

  -- Close; the nil server is a none.
  unfoldable pub close : World → Option (Server Listener) → World × Option OsError
  close w none = (w, none)
  close w (some s) =
      let (stopped, failed) = fs.shutdown w s.listener in
      (remove_if_ours stopped s.path s.id, failed)
