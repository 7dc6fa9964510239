-- ===== src/Hash/Tests.antt =====
-- Runs of the hash functions, and the theorem at a concrete key.
use ztool_lib.Common.{◌≡◌, refl, [], ◌∷◌}
use ztool_lib.Hash.{hashdjb2, djb2_loop, hashpjw, pjw_loop, pjw_round, murmur_hash2, murmur_loop}

djb2_run : hashdjb2 (97 ∷ []) ≡ 177670
unfolding hashdjb2 djb2_loop
djb2_run = refl

pjw_run : hashpjw (97 ∷ 98 ∷ []) ≡ 1650
unfolding hashpjw pjw_loop pjw_round
pjw_run = refl

murmur_run : murmur_hash2 [] ≡ 0
unfolding murmur_hash2 murmur_loop
murmur_run = refl
