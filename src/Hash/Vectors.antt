-- ===== src/Hash/Vectors.antt =====
-- The FIPS 180-4 test vectors of the source's tests.
use perdure.Prelude.{◌≡◌, refl, [], ◌∷◌, codes}
use perdure.Hash.{sha256_hex}

empty_vector :
    sha256_hex [] ≡ codes "e3b0c44298fc1c149afbf4c8996fb92427ae41e4649b934ca495991b7852b855"
unfolding sha256_hex
empty_vector = refl

abc_vector :
    sha256_hex (codes "a" ∷ codes "bc" ∷ [])
    ≡ codes "ba7816bf8f01cfea414140de5dae2223b00361a396177a9cb410ff61f20015ad"
unfolding sha256_hex
abc_vector = refl
