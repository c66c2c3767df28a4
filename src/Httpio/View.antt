-- ===== src/Httpio/View.antt =====
-- httpio/view_handlers.go
use onetimelink.Http.{
  Content, Request, Response, error_page, index_page, method_post, confirm_page, info_page,
  view_page, Decoders, text, created_page, http_error,
}
use onetimelink.Prelude.{
  Bool, ℕ, [], if◌then◌else◌, ◌*◌, not, ◌/◌, Option, ◌++◌, List, none, ltb, some, length, ◌||◌,
}
use onetimelink.Prelude.Int.{ℤ, pos, ◌-ℤ◌, ltb_ℤ}
use onetimelink.Prelude.Text.{Bytes, utf8, str_eq, contains}
use onetimelink.Store.{
  SecretStore, get_entry, max_secret_len, StoreError, empty_secret, new_entry, secret_too_long,
  store_full, rand_failed, no_free_id,
}
use onetimelink.TokenDb.{TokenDb, knows}
use onetimelink.Store.Serve.{get_entry_info_hidden, claim}
use onetimelink.Httpio.{get_route, api_get_route}
use onetimelink.Prelude.Clock.{Time}
use onetimelink.Prelude.Parse.{atoi, trim_space}
use onetimelink.Prelude.Result.{err, ok}
use onetimelink.Prelude.Format.{decimal}

abbrev pub form_max_clicks : ℤ
form_max_clicks = pos 10

abbrev pub form_max_days : ℤ
form_max_days = pos 30

abbrev pub form_default_days : ℤ
form_default_days = pos 7

abbrev pub max_form_bytes : ℕ
max_form_bytes = 64 * 1024

unfoldable pub render_error : ℕ → Bytes → Bytes → Response
render_error status title message = record {
  status = status;
  content_type = [];
  content = error_page title message;
}

abbrev pub render : Content → Response
render page = record { status = 200; content_type = []; content = page }

unfoldable pub render_gone : Response
render_gone =
    render_error 404 (utf8 "Ссылка недействительна")
      (utf8 "Она уже открыта, истекла или введена с ошибкой. Попросите отправителя сделать новую.")

unfoldable pub handle_index : Bool → Request → Response
handle_index allow_anonymous r =
    if not (str_eq r.path (utf8 "/"))
    then render_error 404 (utf8 "Страница не найдена") (utf8 "Такой страницы здесь нет.")
    else render (index_page allow_anonymous max_secret_len (max_secret_len / 1024))

unfoldable pub handle_get : SecretStore → Bytes → Bytes → Request → SecretStore × Response
handle_get st urlbase message r =
    let id = r.query (utf8 "id") in
    if not (str_eq r.method method_post)
    then if not (get_entry st id).1
      then (st, render_gone)
      else (st, render (confirm_page id message))
    else let (st', (entry, found)) = claim st id urlbase get_route api_get_route in
      if not found
      then (st', render_gone)
      else (st', render (view_page entry message (entry.max_clicks -ℤ entry.clicks)))

unfoldable pub request_token : Request → Bytes
request_token r =
    let t = r.header (utf8 "X-Auth-Token") in
    if not (str_eq t []) then t else r.query (utf8 "token")

unfoldable pub handle_info :
    (Bytes → Bytes) → SecretStore → Bytes → TokenDb → Request → SecretStore × Response
handle_info sha256 st urlbase auth r =
    if not (knows sha256 auth (request_token r))
    then (st, render_error 401 (utf8 "Нет доступа") (utf8 "Для просмотра метаданных нужен токен."))
    else let (entry, found) =
        get_entry_info_hidden st (r.query (utf8 "id")) urlbase get_route api_get_route in
      if not found then (st, render_gone) else (st, render (info_page entry))

unfoldable pub wants_html : Request → Bool
wants_html r = contains (r.header (utf8 "Accept")) (utf8 "text/html")

unfoldable pub form_int : Bytes → ℤ → ℤ → ℤ → ℤ
form_int raw fallback min_value max_value = elim (atoi (trim_space raw)) [
  | none ↦ fallback
  | some n ↦ if ltb_ℤ n min_value || ltb_ℤ max_value n then fallback else n
]

unfoldable pub reply_create_error : Request → ℕ → Bytes → Bytes → Response
reply_create_error r status title message =
    if not (wants_html r) then http_error message status else render_error status title message

unfoldable pub create_error_text : StoreError → ℤ → ℕ × Bytes × Bytes
create_error_text empty_secret max_entries =
    (422, utf8 "Пустой секрет", utf8 "Вставьте то, чем хотите поделиться.")
create_error_text secret_too_long max_entries = (
  422,
  utf8 "Слишком длинный секрет",
  utf8 "Один секрет — не больше 4 КБ. Файлы через этот сервис не передают.",
)
create_error_text store_full max_entries = (
  503,
  utf8 "Сервер заполнен",
  utf8 "Одновременно здесь живёт не больше "
      ++ (decimal max_entries
          ++ utf8 " секретов — так сервис защищён от переполнения памяти. Попробуйте позже."),
)
create_error_text rand_failed max_entries =
    (500, utf8 "Что-то сломалось", utf8 "Ссылка не создана. Попробуйте ещё раз.")
create_error_text no_free_id max_entries =
    (500, utf8 "Что-то сломалось", utf8 "Ссылка не создана. Попробуйте ещё раз.")

-- http.MaxBytesReader: reading a body of more than `max_form_bytes` to its end fails.
abbrev pub max_bytes_reader : Option Bytes → Option Bytes
max_bytes_reader none = none
max_bytes_reader (some body) = if ltb max_form_bytes (length body) then none else some body

-- ParseForm decides by the Content-Type whether it reads the body.
unfoldable pub read_form : Decoders → Request → Option (Bytes → Bytes)
read_form decoders r =
    decoders.parse_form r.query (r.header (utf8 "Content-Type")) (max_bytes_reader r.body)

-- HandleCreate once the form is read.
unfoldable pub create_from :
    SecretStore
    → Bytes
    → Time
    → (ℕ → Option (List ℕ))
    → Request
    → (Bytes → Bytes)
    → SecretStore × Response
create_from st urlbase now draws r form =
    let clicks = form_int (form (utf8 "clicks")) (pos 1) (pos 1) form_max_clicks in
    let days = form_int (form (utf8 "days")) form_default_days (pos 1) form_max_days in
    let (st', result) =
      new_entry st (form (utf8 "secret")) clicks days (utf8 "форма") [] now draws in
    elim result [
      | err e ↦
          let (status, title, message) = create_error_text e st'.max_entries in
          (st', reply_create_error r status title message)
      | ok id ↦
          let link = urlbase ++ (get_route ++ (utf8 "?id=" ++ id)) in
          if not (wants_html r)
          then (
            st',
            record {
              status = 200;
              content_type = utf8 "text/plain; charset=utf-8";
              content = text link;
            },
          )
          else (st', render (created_page link clicks days))
    ]

unfoldable pub handle_create :
    Decoders → SecretStore → Bytes → Time → (ℕ → Option (List ℕ)) → Request → SecretStore × Response
handle_create decoders st urlbase now draws r =
    if not (str_eq r.method method_post)
    then (
      st,
      reply_create_error r 405 (utf8 "Так нельзя") (utf8 "Секрет создаётся отправкой формы."),
    )
    else elim (read_form decoders r) [
      | none ↦ (
        st,
        reply_create_error r 400 (utf8 "Не получилось")
            (utf8 "Секрет длиннее 4 КБ или форма повреждена."),
      )
      | some form ↦ create_from st urlbase now draws r form
    ]
