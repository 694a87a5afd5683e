-- ===== src/Music/Tests.antt =====
-- The theorems on transposition at concrete keys.
use setlyst_api.Prelude.{refl, map_option, ◌≡◌}
use setlyst_api.Prelude.Int.{pos, negsuc, ◌+ℤ◌}
use setlyst_api.Music.{transpose_tonality, g_major, a_minor}
use setlyst_api.Music.Keys.{class_of}
use setlyst_api.Music.Laws.{shifted, transpose_tonality-class_of, transpose_tonality_add}

-- G one semitone down.
transpose_tonality-class_of_example :
    class_of (transpose_tonality g_major (negsuc 0))
    ≡ map_option (shifted (negsuc 0)) (class_of g_major)
transpose_tonality-class_of_example = transpose_tonality-class_of g_major (negsuc 0)

transpose_tonality_add_example :
    transpose_tonality (transpose_tonality a_minor (pos 3)) (pos 4)
    ≡ transpose_tonality a_minor (pos 3 +ℤ pos 4)
unfolding ◌+ℤ◌
transpose_tonality_add_example = transpose_tonality_add a_minor (pos 3) (pos 4) refl refl refl
