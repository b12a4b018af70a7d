-- ===== src/Util/Tests.antt =====
-- Runs of the letters of an index and of the extension.
use kahuna.Common.{◌≡◌, refl, some, ok}
use kahuna.Decoders.{codes, digits_of, zero_padded}
use kahuna.Util.{uint_idx_to_alpha_idx, multi_extension}

letters_run : uint_idx_to_alpha_idx 165 17 ≡ ok (codes "kf")
unfolding uint_idx_to_alpha_idx digits_of zero_padded
letters_run = refl

extension_run : multi_extension (codes "foo.tar.gz") ≡ some (codes "tar.gz")
extension_run = refl
