-- ===== src/Util/Uri/Tests.antt =====
-- Concrete texts.
use libnodecc.Prelude.{◌≡◌, ◌≤◌, arith, codes, true, false, [], ◌∷◌, ◌++◌, inl, length}
use libnodecc.Util.Uri.{component_decode}
use libnodecc.Util.Uri.Escapes.{
  percent_encode, swapped, component_decode-text, component_decode-control,
  component_decode-percent_encode, length-component_decode,
}

component_decode-text_example : component_decode true (codes "a+b") ≡ codes "a b"
component_decode-text_example = component_decode-text true (codes "a+b") (ground arith)

component_decode-control_example : component_decode false (codes "ab" ++ 10 ∷ codes "c") ≡ []
component_decode-control_example =
    component_decode-control false (codes "ab") 10 (codes "c") (ground arith) (inl (omega arith))

-- A space is `%20`, which becomes the byte 2.
component_decode-percent_encode_example :
    component_decode false (codes "a%20b") ≡ b'a' ∷ 2 ∷ b'b' ∷ []
unfolding percent_encode swapped
component_decode-percent_encode_example =
    component_decode-percent_encode false (codes "a b") (ground arith)

length-component_decode_example : length (component_decode true (codes "a%20b")) ≤ 5
length-component_decode_example = length-component_decode true (codes "a%20b")
