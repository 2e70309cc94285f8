-- ===== src/Url/Tests.antt =====
-- A text with a space, a letter and a reserved character.
use collab_vm_server.Base.{◌≡◌, [], ◌∷◌, some, arith}
use collab_vm_server.Url.{form_urlencode}
use collab_vm_server.Url.Decode.{decode, outside, decode-form_urlencode}

decode-form_urlencode_example :
    decode outside (form_urlencode (32 ∷ 65 ∷ 38 ∷ [])) ≡ some (32 ∷ 65 ∷ 38 ∷ [])
decode-form_urlencode_example =
    decode-form_urlencode (32 ∷ 65 ∷ 38 ∷ []) (omega arith, (omega arith, (omega arith, tt)))
