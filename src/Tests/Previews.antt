-- ===== src/Tests/Previews.antt =====
-- The preview of the sample payment, and of a payment by all.
use monopoly_bank.Prelude.{◌≡◌, refl, ◌⊎◌, true, none, []}
use monopoly_bank.Prelude.Int.{pos, ◌+ℤ◌, neg}
use monopoly_bank.Banking.Guards.{
  validate_players, validate_game, validate_amount, find_player, ensure_different_players,
  ensure_sufficient_funds, ensure_active,
}
use monopoly_bank.Banking.Deltas.{
  transfer_deltas, create_balance_change, apply_deltas, create_result,
}
use monopoly_bank.Banking.Transfers.{player_to_player}
use monopoly_bank.Banking.Dispatch.{execute}
use monopoly_bank.Tests.Wallets.{paid, payment}
use monopoly_bank.Tests.Samples.{sample_host, sample_game, both}
use monopoly_bank.Banking.Preview.{
  player_to_player_request, all_to_player_request, PreviewContext, preview_deltas,
  controlled_of_request,
}
use monopoly_bank.Banking.Effects.Applies.{Applies}
use monopoly_bank.Banking.Effects.Foresight.{
  preview_deltas-exact, touches, preview_deltas-authorised,
}

abbrev sample_context : PreviewContext
sample_context = record {
  pass_go_reward = pos 200;
  redemption_amount = pos 0;
  loans = [];
  interest = pos 0;
  jackpot = pos 0;
  tile_amount = pos 0;
  tile_owner_player_id = none;
}

preview_deltas-exact_example :
    Applies sample_game both
      (preview_deltas (player_to_player_request 1 2 (pos 100)) both sample_context)
      paid
unfolding execute player_to_player validate_game validate_players validate_amount find_player
    ensure_active ensure_different_players ensure_sufficient_funds apply_deltas
    create_balance_change transfer_deltas create_result ◌+ℤ◌ neg
preview_deltas-exact_example =
    preview_deltas-exact sample_host payment (player_to_player_request 1 2 (pos 100)) sample_context
      paid refl refl refl

preview_deltas-authorised_example :
    (preview_deltas (all_to_player_request 1 (pos 10)) both sample_context ≡ [])
    ⊎ (touches
          (controlled_of_request (all_to_player_request 1 (pos 10)))
          (preview_deltas (all_to_player_request 1 (pos 10)) both sample_context)
        ≡ true)
preview_deltas-authorised_example =
    preview_deltas-authorised (all_to_player_request 1 (pos 10)) both sample_context
