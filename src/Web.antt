-- ===== src/Web.antt =====
-- WebSocketServer.hpp: what a web socket does with the header of an HTTP request. Boost.Beast's parsing
-- is done before; `exists` is its `token_list::exists`. A path is the list of what an iteration of it
-- gives, on POSIX. `none` is an exception or a read out of bounds.
pub mod Paths
pub mod Serving
pub mod Tests
use collab_vm_server.Base.{
  ℕ, ◌++◌, Bool, true, false, ◌&&◌, List, [], ◌∷◌, Option, none, some, ◌>>=◌, if◌then◌else◌,
  same_text,
}
use collab_vm_server.Web.Paths.{Elements, elements, join, less_path, equal_prefix, any_dots}

-- What the standard library and Boost.Beast say of the files of the host.
pub record FileSystem : Type 0 where
  pub canonical : Elements → Option Elements
  -- Whether the path is a directory, if it has a status.
  pub is_directory : Elements → Option Bool
  pub can_open : Elements → Bool
  pub can_prepare : Elements → Bool

-- The file with a canonical path, if it is one that can be sent.
unfoldable pub prepare_file : FileSystem → Elements → Option Elements
prepare_file fs p = elim (fs.is_directory p) [
  | none ↦ none
  | some true ↦ none
  | some false ↦ if fs.can_open p && fs.can_prepare p then some p else none
]

-- The part of `SendFileResponse` behind the canonical path.
unfoldable pub send_canonical : FileSystem → (doc_root path : Elements) → Option (Option Elements)
unfolding prepare_file
send_canonical fs doc_root p =
    if less_path p doc_root
    then some none
    else equal_prefix doc_root p >>= λ is_inside.
        some (if is_inside then prepare_file fs p else none)

-- The file that is sent, if any.
unfoldable pub send_file_response :
    FileSystem → (doc_root path : Elements) → Option (Option Elements)
unfolding send_canonical
send_file_response fs doc_root path = elim (fs.canonical (join doc_root path)) [
  | none ↦ some none
  | some p ↦ send_canonical fs doc_root p
]

-- A file, or else the next one.
abbrev pub or_else : (first next : Option (Option Elements)) → Option (Option Elements)
or_else none next = none
or_else (some (some p)) next = some (some p)
or_else (some none) next = next

abbrev pub html : List ℕ
html = 46 ∷ 104 ∷ 116 ∷ 109 ∷ 108 ∷ []

abbrev pub index_html : List ℕ
index_html = 105 ∷ 110 ∷ 100 ∷ 101 ∷ 120 ∷ html

unfoldable pub serve_file : FileSystem → (doc_root path : Elements) → Option (Option Elements)
unfolding send_file_response
serve_file fs doc_root [] = send_file_response fs doc_root (index_html ∷ [])
serve_file fs doc_root (e ∷ es) = or_else (send_file_response fs doc_root (e ∷ es)) (
    or_else (send_file_response fs doc_root (elements (e ++ html)))
      (send_file_response fs doc_root (index_html ∷ [])))

pub data Method : Type 0 where
  get post other : Method

pub record Request : Type 0 where
  pub method : Method
  pub target : List ℕ
  -- The values of two fields of the header.
  pub connection : Option (List ℕ)
  pub upgrade : Option (List ℕ)

pub data Response : Type 0 where
  accept_websocket not_found close method_not_allowed : Response
  file : Elements → Response

abbrev pub sent_or_not_found : Option Elements → Response
sent_or_not_found none = not_found
sent_or_not_found (some p) = file p

-- `substr(1)` of an empty target throws.
unfoldable pub respond_get :
    FileSystem → (doc_root : Elements) → (target : List ℕ) → Option Response
unfolding serve_file
respond_get fs doc_root [] = none
respond_get fs doc_root (c ∷ cs) =
    if any_dots (elements cs)
    then some not_found
    else serve_file fs doc_root (elements cs) >>= λ sent. some (sent_or_not_found sent)

abbrev upgrade_token : List ℕ
upgrade_token = 117 ∷ 112 ∷ 103 ∷ 114 ∷ 97 ∷ 100 ∷ 101 ∷ []

abbrev websocket_token : List ℕ
websocket_token = 119 ∷ 101 ∷ 98 ∷ 115 ∷ 111 ∷ 99 ∷ 107 ∷ 101 ∷ 116 ∷ []

module _ (exists : (value token : List ℕ) → Bool) where
  abbrev pub has_token : Option (List ℕ) → List ℕ → Bool
  has_token none token = false
  has_token (some value) token = exists value token

  unfoldable pub is_websocket : Request → Bool
  is_websocket r =
      same_text r.target (47 ∷ [])
      && (has_token r.connection upgrade_token && has_token r.upgrade websocket_token)

  unfoldable pub respond : FileSystem → (doc_root : Elements) → Request → Option Response
  unfolding is_websocket respond_get
  respond fs doc_root r = elim r.method [
    | post ↦ some close
    | other ↦ some method_not_allowed
    | get ↦ if is_websocket r then some accept_websocket else respond_get fs doc_root r.target
  ]
