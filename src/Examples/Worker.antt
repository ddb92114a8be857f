-- ===== src/Examples/Worker.antt =====
-- The theorems on the worker of src/server/server.cc and on the reads of its engine, at small files.
use group_trade_data_query.Common.{◌≡◌, refl, List, All, arith}
use group_trade_data_query.Common.Word.{bit_set}
use group_trade_data_query.Common.Run.{ok}
use group_trade_data_query.Engine.{int_ceil}
use group_trade_data_query.Engine.Store.{opened, row}
use group_trade_data_query.Engine.Computed.{Answer, all_bytes, Covers}
use group_trade_data_query.Engine.Fits.{AnswerFits}
use group_trade_data_query.Engine.Specified.{Specified}
use group_trade_data_query.Engine.Overcount.{OrPast}
use group_trade_data_query.Server.{WorkItem, ResultItem}
use group_trade_data_query.Server.Worker.{process_work}
use group_trade_data_query.Server.Worker.Answers.{AsksAll, process_work-Specified}
use group_trade_data_query.Server.Worker.AnyFile.{opened-ReadsFit, process_work-opened}
use group_trade_data_query.Examples.Toy.{
  toy, toy-IsOrdered, toy_steps, toy_scalable, toy-SumsFinite, three_trades, three_trades-StoredFit,
  three_trades-PadsFit, three_trades-Holds, three_trades-IsSorted, copies, copies-StoredFit,
  copies-PadsFit, copies-IsSorted,
}
use group_trade_data_query.Examples.Query.{query_of_all}

abbrev work : WorkItem
work = record { client_fd = 9; query = query_of_all }

asks_all : AsksAll 0x2_0400_0001
unfolding bit_set
asks_all = record { extremes_bit = refl; mean_bit = refl; quantity_bit = refl }

process_work-Specified_example :
    (result : ResultItem) × (answers : List Answer) × (process_work toy toy_steps
        (opened three_trades)
        2
        4
        work
      ≡ ok result)
    × (result.client_fd ≡ 9)
    × (result.res ≡ all_bytes answers)
    × Covers (Specified toy toy_steps (row three_trades) 3) query_of_all 5 answers
    × All AnswerFits answers
unfolding int_ceil
process_work-Specified_example =
    process_work-Specified toy toy-IsOrdered toy_scalable toy-SumsFinite three_trades-Holds
      three_trades-IsSorted (omega arith)
      (opened-ReadsFit three_trades three_trades-StoredFit three_trades-PadsFit) 0 4 work
      (omega arith) (omega arith) asks_all (omega arith)

process_work-opened_example :
    OrPast 40 (process_work toy toy_steps (opened (copies 40)) 2 4 work) (λ result.
      (answers : List Answer) × (result.client_fd ≡ 9)
      × (result.res ≡ all_bytes answers)
      × Covers (Specified toy toy_steps (row (copies 40)) 40) query_of_all 5 answers
      × All AnswerFits answers)
unfolding int_ceil
process_work-opened_example =
    process_work-opened toy toy-IsOrdered toy_scalable toy-SumsFinite (copies 40)
      (copies-StoredFit 40) (copies-PadsFit 40) (omega arith) (copies-IsSorted 40) (omega arith) 0 4
      work (omega arith) (omega arith) asks_all (omega arith)
