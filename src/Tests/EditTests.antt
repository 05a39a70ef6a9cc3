-- ===== src/Tests/EditTests.antt =====
-- Edit requests, and the theorems on the rules at them.
use media_player.Prelude.{◌≡◌, refl, true, not, none, some, [], ◌∷◌, all, ◌↔◌, arith}
use media_player.Prelude.Int.{pos}
use media_player.Edits.Operation.{Operation, OperationName, int, mp3, name_of}
use media_player.Edits.Rules.{
  finite, ok, refused, check, check_scale, down, scale_rule, changes_picture, scale_heights,
  not_with_mp3, Label, scaled_width,
}
use media_player.Edits.Checking.{ordered, named, check_edit_operations, is_mp3}
use media_player.Edits.Offers.{offers, offers_iff}
use media_player.Edits.Filters.{made, filter_chain}
use media_player.Edits.Requests.{is_edit_request, valid_params}
use media_player.Worker.EditChecks.{
  FileProbe, outside, edit_refused, validate_crop, check_file, prepare,
}
use media_player.Worker.EditFits.{Prepares, prepare-Prepares}
use media_player.Api.EditRoute.{operation}
use media_player.Edits.AnyOrder.{exchange, requests_any_order}
use media_player.Edits.Chains.{collect, no_filters, accepted_request}

abbrev scale : Operation
scale = Operation.downscale (int (pos 480))

abbrev turn : Operation
turn = Operation.rotate 90

abbrev audio_only : Operation
audio_only = Operation.convert mp3

swapped :
    check_edit_operations (scale ∷ turn ∷ []) (some 1080) (some 1920)
    ≡ ok (record { width = some 270; height = some 480 })
unfolding check_edit_operations check scale_rule scale_heights name_of scaled_width
swapped = refl

no_picture :
    check_edit_operations (scale ∷ audio_only ∷ []) (some 1080) none
    ≡ refused (not_with_mp3 (Label.scale ∷ []))
unfolding check_edit_operations name_of
no_picture = refl

offers_iff_example :
    (offers down 1080 480 ≡ true) ↔ (check_scale down (pos 480) (some 1080) ≡ ok tt)
offers_iff_example = offers_iff down 1080 480 (omega arith)

requests_any_order_example :
    (check_edit_operations (scale ∷ turn ∷ []) (some 1080) none
      ≡ check_edit_operations (turn ∷ scale ∷ []) (some 1080) none)
    × (filter_chain (scale ∷ turn ∷ []) (record { width = none; height = none })
        ≡ filter_chain (turn ∷ scale ∷ []) (record { width = none; height = none }))
unfolding name_of
requests_any_order_example =
    requests_any_order (exchange scale turn [] refl) (some 1080) none
      (record { width = none; height = none })

accepted_request_example :
    (filter_chain (scale ∷ turn ∷ []) (record { width = some 1920; height = some 1080 })
      ≡ made (collect no_filters (ordered (scale ∷ turn ∷ []))))
    × (is_mp3 (named (scale ∷ turn ∷ []) OperationName.convert) ≡ true
        → all (λ op. not (changes_picture (name_of op))) (ordered (scale ∷ turn ∷ [])) ≡ true)
accepted_request_example =
    accepted_request (scale ∷ turn ∷ []) (some 1080) (some 1920)
      (record { width = some 270; height = some 480 }) (unfold valid_params in refl) swapped

abbrev hd_minute : FileProbe
hd_minute = record { width = 1920; height = 1080; duration = finite (pos 60000000) }

abbrev corner : Operation
corner = Operation.crop (int (pos 1900)) (int (pos 1000)) (int (pos 20)) (int (pos 80))

prepare-Prepares_example :
    Prepares (scale ∷ corner ∷ []) (some hd_minute) (prepare (scale ∷ corner ∷ []) (some hd_minute))
unfolding is_edit_request valid_params name_of
prepare-Prepares_example = prepare-Prepares (scale ∷ corner ∷ []) (some hd_minute) refl

below_the_picture :
    prepare
      (Operation.crop (int (pos 1900)) (int (pos 1001)) (int (pos 20)) (int (pos 80)) ∷ [])
      (some hd_minute)
    ≡ edit_refused outside
unfolding prepare check_file validate_crop name_of operation
below_the_picture = refl
