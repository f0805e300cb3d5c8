-- ===== src/Handler.antt =====
-- src/ngx_http_streaming_module.c: the configuration and the answer to a request. What the server
-- does for the module is given with a request: the path of its address, the result of opening it.
-- Sending headers and buffers, the log and the counter of views are the server's and are left out.
use nginx_hls_module.Base.{
  ℕ, ◌+◌, ◌-◌, ◌*◌, List, [], ◌∷◌, ◌++◌, Option, none, some, Bool, not, ltb, ◌==◌, ◌||◌,
  if◌then◌else◌, length, take, get_elem?,
}
use nginx_hls_module.Run.{Run, ok, fault, ◌>>=◌, deref}
use nginx_hls_module.Bucket.{Bucket, bucket_init}
use nginx_hls_module.File.Open.{mp4_open}
use nginx_hls_module.Segment.Output.{output_ts}
use nginx_hls_module.Playlist.{Entry, mp4_create_m3u8}
use nginx_hls_module.Options.{starts_with}
use nginx_hls_module.Options.Parse.{SplitOptions, mp4_split_options_init, mp4_split_options_set}

-- A value that is not set is `none`.
pub record HlsConf : Type 0 where
  pub length : Option ℕ
  pub relative : Option ℕ
  pub buffer_size : Option ℕ
  pub max_buffer_size : Option ℕ

unfoldable pub ngx_http_hls_create_conf : HlsConf
ngx_http_hls_create_conf = record {
  length = none;
  relative = none;
  buffer_size = none;
  max_buffer_size = none;
}

-- The server's macros `ngx_conf_merge_*_value`.
abbrev pub merged : Option ℕ → Option ℕ → ℕ → ℕ
merged (some v) prev default = v
merged none (some v) default = v
merged none none default = default

-- `none` is the error of a length below 1.
unfoldable pub ngx_http_hls_merge_conf : HlsConf → HlsConf → Option HlsConf
ngx_http_hls_merge_conf prev conf =
    let segment = merged conf.length prev.length 8 in
    if ltb segment 1
    then none
    else some (record {
      length = some segment;
      relative = some (merged conf.relative prev.relative 1);
      buffer_size = some (merged conf.buffer_size prev.buffer_size (512 * 1024));
      max_buffer_size = some (merged conf.max_buffer_size prev.max_buffer_size (10 * 1024 * 1024));
    })

-- `of.err`
pub data OpenError : Type 0 where
  no_error : OpenError
  ngx_enoent : OpenError
  ngx_enotdir : OpenError
  ngx_enametoolong : OpenError
  ngx_eacces : OpenError
  other_error : OpenError

unfoldable pub error_status : OpenError → ℕ
error_status no_error = 500
error_status ngx_enoent = 404
error_status ngx_enotdir = 404
error_status ngx_enametoolong = 404
error_status ngx_eacces = 403
error_status other_error = 500

pub data OpenResult : Type 0 where
  open_failed : OpenError → OpenResult
  opened : (is_file : Bool) → (size : ℕ) → OpenResult

-- `discarded` is the code of `ngx_http_discard_request_body` where that is not NGX_OK; `path` is what
-- `ngx_http_map_uri_to_path` returns, with room for one byte more; `file_allocated` is false where
-- the allocation of `file` fails.
pub record Request : Type 0 where
  pub is_get_or_head : Bool
  pub uri : List ℕ
  pub discarded : Option ℕ
  pub args : List ℕ
  pub path : Option (List ℕ)
  pub open_file : List ℕ → OpenResult
  pub file_allocated : Bool

-- A playlist, and a playlist of no bytes, and a segment, are sent with the status 200.
pub data Response : Type 0 where
  declined : Response
  status : ℕ → Response
  playlist : List Entry → Response
  nothing : Response
  segment : Bucket → Response

-- `strstr`
unfoldable pub contains : List ℕ → List ℕ → Bool
contains [] test = starts_with [] test
contains (c ∷ cs) test = starts_with (c ∷ cs) test || contains cs test

-- The place of the last dot.
unfoldable pub last_dot : List ℕ → ℕ → Option ℕ → Option ℕ
last_dot [] i found = found
last_dot (c ∷ cs) i found = last_dot cs (i + 1) (if c == b'.' then some i else found)

-- The extension is overwritten, which can make the path longer.
unfoldable pub mp4_path : List ℕ → Run (List ℕ)
mp4_path path = elim (last_dot path 0 none) [
  | none ↦ fault
  | some i ↦
      if ltb (length path + 1) (i + 4)
      then fault
      else ok (take i path ++ (b'.' ∷ b'm' ∷ b'p' ∷ b'4' ∷ []))
]

module _ {F : Type 0} (strtod : List ℕ → F) (zero_float : F) (strtoll : List ℕ → ℕ)
    (ngx_palloc : ℕ → Option ℕ) (ngx_read_file : ℕ → ℕ → Option (List ℕ))
    (reaches : ℕ → ℕ → ℕ → Bool) (now : ℕ) (malloc : ℕ → ℕ) (rounds fuel : ℕ) (conf : HlsConf) where
  -- The answer from a file that is open.
  unfoldable pub answer : Bool → SplitOptions F → ℕ → Run Response
  answer m3u8 options size = do
    max_buffer_size ← deref conf.max_buffer_size
    buffer_size ← deref conf.buffer_size
    movie ←
        mp4_open ngx_palloc ngx_read_file max_buffer_size now malloc rounds fuel buffer_size size
    elim movie [
      | none ↦ ok (status 500)
      | some c ↦
          if m3u8
          then (do
            listed ← mp4_create_m3u8 reaches options.length c.moov
            let result : ℕ = elim listed [ none ↦ 0 | some entries ↦ length entries ]
            let code = if result == 0 then 415 else 200
            if not (code == 0)
                then ok (elim listed [ none ↦ nothing | some entries ↦ playlist entries ])
                else ok (status 415))
          else (do
            sent ←
                output_ts ngx_palloc ngx_read_file reaches rounds fuel c bucket_init
                  options.fragment_track_id options.fragment_start options.length
            ok (elim sent [ none ↦ status 500 | some m ↦ segment m.bucket ]))
    ]

  unfoldable pub ngx_streaming_handler : Request → Run Response
  ngx_streaming_handler r = if not r.is_get_or_head then ok (status 405) else (do
    slash ← deref (get_elem? r.uri (length r.uri - 1))
    segment_length ← deref conf.length
    if slash == b'/' then ok declined else elim r.discarded [
      | some code ↦ ok (status code)
      | none ↦
          let fresh = mp4_split_options_init zero_float segment_length in
          let options =
            if length r.args == 0
            then fresh
            else mp4_split_options_set strtod strtoll fresh r.args in
          elim r.path [
            | none ↦ ok (status 500)
            | some path ↦ do
              file ← mp4_path path
              elim (r.open_file file) [
                | open_failed e ↦ ok (status (error_status e))
                | opened is_file size ↦
                    if not is_file
                    then ok declined
                    else if not r.file_allocated
                    then ok (status 500)
                    else answer (contains path (b'm' ∷ b'3' ∷ b'u' ∷ b'8' ∷ [])) options size
              ]
          ]
    ])
