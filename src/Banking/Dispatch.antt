-- ===== src/Banking/Dispatch.antt =====
-- worker/services/banking-service.ts: the switch that runs an operation (`execute`, which hands the
-- plain ones to `executeOperation`), after the Worker has read what the command carries; with the
-- operations that the Worker starts elsewhere: a player loan or a trade when it is accepted, an
-- auction when it is due, and a bankruptcy.
use monopoly_bank.Prelude.{List}
use monopoly_bank.Types.{Game, Player}
use monopoly_bank.Outcome.{Result}
use monopoly_bank.Money.{TextHost}
use monopoly_bank.Banking.Command.{
  PlayerToPlayerCommand, PlayerAmountCommand, FanCommand, PassGoCommand, JackpotPayoutCommand,
  AuctionPaymentCommand, MortgageTileCommand, PropertyPurchaseCommand, BuildPropertyCommand,
  TransferPropertiesCommand, PayRentCommand, MortgagePropertyCommand, RedeemMortgageCommand,
  IssueLoanCommand, RepayLoanCommand, IssueBankLoanCommand, RepayBankLoanCommand, ReversalCommand,
  BankruptcyCommand,
}
use monopoly_bank.Banking.Pending.{BankingOperationResult}
use monopoly_bank.Banking.Transfers.{
  player_to_player, player_to_bank, to_jackpot, jackpot_payout, bank_to_player, player_to_all,
  all_to_player, pass_go,
}
use monopoly_bank.Banking.Loans.{issue_loan, repay_loan, issue_bank_loan, repay_bank_loan}
use monopoly_bank.Banking.Holdings.{
  pay_auction, purchase_property, mortgage_property, mortgage_tile, redeem_mortgage, rent_payment,
}
use monopoly_bank.Banking.Trade.{build_property, sell_building, transfer_properties}
use monopoly_bank.Banking.Undo.{reverse_transaction}
use monopoly_bank.Banking.Bankruptcy.{declare_bankruptcy}

pub data Operation : Type 0 where
  player_to_player_op : PlayerToPlayerCommand → Operation
  player_to_bank_op to_jackpot_op bank_to_player_op : PlayerAmountCommand → Operation
  player_to_all_op all_to_player_op : FanCommand → Operation
  pass_go_op : PassGoCommand → Operation
  jackpot_payout_op : JackpotPayoutCommand → Operation
  auction_op : AuctionPaymentCommand → Operation
  mortgage_tile_op : MortgageTileCommand → Operation
  purchase_op : PropertyPurchaseCommand → Operation
  build_op sell_op : BuildPropertyCommand → Operation
  trade_op : TransferPropertiesCommand → Operation
  rent_op : PayRentCommand → Operation
  mortgage_op : MortgagePropertyCommand → Operation
  redeem_op : RedeemMortgageCommand → Operation
  loan_op : IssueLoanCommand → Operation
  repay_op : RepayLoanCommand → Operation
  bank_loan_op : IssueBankLoanCommand → Operation
  repay_bank_op : RepayBankLoanCommand → Operation
  reversal_op : ReversalCommand → Operation
  bankruptcy_op : BankruptcyCommand → Operation

unfoldable pub execute : TextHost → Operation → Result BankingOperationResult
execute host (player_to_player_op c) = player_to_player c
execute host (player_to_bank_op c) = player_to_bank c
execute host (to_jackpot_op c) = to_jackpot c
execute host (bank_to_player_op c) = bank_to_player c
execute host (player_to_all_op c) = player_to_all c
execute host (all_to_player_op c) = all_to_player c
execute host (pass_go_op c) = pass_go c
execute host (jackpot_payout_op c) = jackpot_payout c
execute host (auction_op c) = pay_auction c
execute host (mortgage_tile_op c) = mortgage_tile host c
execute host (purchase_op c) = purchase_property c
execute host (build_op c) = build_property c
execute host (sell_op c) = sell_building c
execute host (trade_op c) = transfer_properties c
execute host (rent_op c) = rent_payment c
execute host (mortgage_op c) = mortgage_property host c
execute host (redeem_op c) = redeem_mortgage c
execute host (loan_op c) = issue_loan c
execute host (repay_op c) = repay_loan c
execute host (bank_loan_op c) = issue_bank_loan c
execute host (repay_bank_op c) = repay_bank_loan c
execute host (reversal_op c) = reverse_transaction c
execute host (bankruptcy_op c) = declare_bankruptcy c

abbrev pub players_of : Operation → List Player
players_of (player_to_player_op c) = c.players
players_of (player_to_bank_op c) = c.players
players_of (to_jackpot_op c) = c.players
players_of (bank_to_player_op c) = c.players
players_of (player_to_all_op c) = c.players
players_of (all_to_player_op c) = c.players
players_of (pass_go_op c) = c.players
players_of (jackpot_payout_op c) = c.players
players_of (auction_op c) = c.players
players_of (mortgage_tile_op c) = c.players
players_of (purchase_op c) = c.players
players_of (build_op c) = c.players
players_of (sell_op c) = c.players
players_of (trade_op c) = c.players
players_of (rent_op c) = c.players
players_of (mortgage_op c) = c.players
players_of (redeem_op c) = c.players
players_of (loan_op c) = c.players
players_of (repay_op c) = c.players
players_of (bank_loan_op c) = c.players
players_of (repay_bank_op c) = c.players
players_of (reversal_op c) = c.players
players_of (bankruptcy_op c) = c.players

abbrev pub game_of : Operation → Game
game_of (player_to_player_op c) = c.game
game_of (player_to_bank_op c) = c.game
game_of (to_jackpot_op c) = c.game
game_of (bank_to_player_op c) = c.game
game_of (player_to_all_op c) = c.game
game_of (all_to_player_op c) = c.game
game_of (pass_go_op c) = c.game
game_of (jackpot_payout_op c) = c.game
game_of (auction_op c) = c.game
game_of (mortgage_tile_op c) = c.game
game_of (purchase_op c) = c.game
game_of (build_op c) = c.game
game_of (sell_op c) = c.game
game_of (trade_op c) = c.game
game_of (rent_op c) = c.game
game_of (mortgage_op c) = c.game
game_of (redeem_op c) = c.game
game_of (loan_op c) = c.game
game_of (repay_op c) = c.game
game_of (bank_loan_op c) = c.game
game_of (repay_bank_op c) = c.game
game_of (reversal_op c) = c.game
game_of (bankruptcy_op c) = c.game
