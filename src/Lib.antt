-- ===== src/Lib.antt =====
-- OpenChat: a chat server and its client over TCP on Windows, with a log-in against MySQL.
--
-- The program's parts. winSockServer/src/TcpServer.cpp has class TcpServer: a listening socket, a
-- vector of connected clients, a thread that accepts connections (SelectFunc) and one thread for each
-- client (ClientFunc). winSockServer/PCServer/ServerDlg.cpp has the server's dialog, whose buttons
-- start and stop the server and whose list, message box and status bar the threads write to.
-- winSockServer/src/TcpClient.cpp has class TcpClient, with a thread that receives, and
-- winSockClient/PCClient/ClientDlg.cpp the client's dialog. winSockClient/PCClient/LoginDlg.cpp logs a
-- user in through winSockServer/src/RMysql.cpp.
--
-- The files.
--   Base: numbers, integers, lists, options and Boolean tests that all parts share.
--   Text: character strings and the C runtime's number formats; Text/Decimal reads back what they print.
--   Platform: the calls of Winsock, MFC and MySQL as values of a history, newest first, and the
--     answers to them as a parameter (record Winsock): any function of the history, so one call may
--     be answered differently each time. Platform/ListCtrl is the interface of the list control, a
--     record of operations and laws. Platform/Sample instantiates both for concrete runs.
--   ClientItem: CClientItem of winSockServer/include/ClientItem.h.
--   Server/State: the members of TcpServer and PCServerDlg, and the threads that run.
--   Server/Tcp: TcpServer's operations (Init, UnInit, Select, AddClient, DeleteClient, ...).
--     Server/Tcp/Registry has their abstract view, a map from ports to clients, and Server/Tcp/Ports
--     the ports of a vector up to their order, a quotient.
--   Server/ClientView: InsertClient, RemoveClient, AddInfo, SetStyle and NotifyUi.
--   Server/Threads: one turn of the loops of SelectFunc and of ClientFunc; Start and Stop.
--     Server/Threads/Steps cuts a turn of SelectFunc into its calls, for what other threads and the
--     buttons do between two of them.
--   Server/Buttons: OnBtn_Open, OnBtn_Close, OnTimer and OnToolTipNotify.
--   Server/Input: PreTranslateMessage, SendClientMsg and OnBtn_File.
--   Server/System: the process, a step for each turn of a thread and each handler, and its runs over
--     a schedule of such steps.
--   Server/Calls: the process from the open button on, a step for each single call of the accept
--     thread and of each client thread, and for each handler but those of the first two buttons.
--   Server/Process: the whole process a step for each single call of any number of accept threads and
--     client threads and for each handler, the open and the close button included, so that the server
--     is closed and opened again in the middle of a turn. Server/Process/ByCalls relates
--     the schedules of Server/System to these calls, and Server/Process/Alone the runs without a close
--     to those of Server/Calls.
--   Server/Window: MoveControls, OnSize, InitStatusBar and OnPaint.
--   Server/Setup: OnCreate, InitToolBar, InitClientList, OnInitDialog and DoDataExchange, as the calls
--     they make; each run in Server/System starts from the dialog that they show. Server/Resource has
--     the identifiers.
--   Server/Commands: the ON_COMMAND entries of the message map.
--   Startup, Server/Startup and Client/Startup: InitInstance of the two applications, with what the
--     dialog does until it ends as a parameter, and the dialogs' destructors.
--   Client/Tcp and Client/Dialog: TcpClient and PCClientDlg. Client/Setup and Client/Resource: the
--     dialog's set-up and painting, and the identifiers.
--   Client/System: the client's process, a step for each handler and each turn of a receiving thread.
--   Client/Calls: the same a call at a time, with ConnectToServer cut into its calls too; a thread that
--     writes to the message box waits while the dialog's own thread takes no messages, as SendMessage
--     makes it. Client/Calls/ByCalls has the turns of Client/System as runs of such calls.
--   Database: RMysql, with the MySQL library's answers as a parameter (record Mysql).
--   Login: LoginDlg. PCClientDlg::OnInitDialog shows this dialog only in a part that `#if 0` takes
--     out, so the class is modelled on its own, with the client's dialog as its parent.
--   Chat: the server and a client together, a text that goes there and comes back.
-- Beside a module with definitions stand its child modules with proofs (Server/Tcp/Lifecycle,
-- Server/Threads/Effects, Server/System/Agreement, ...) and with concrete runs (Tests).
--
-- How the code corresponds. A record holds a class's members; a method takes the record and the
-- history and returns them changed. `bool` results and exceptions are values: a turn of a thread goes
-- on, ends, or is at fault (an exception or a read past an array), and RQuery and the log-in say so by
-- `none` and `throws`. A loop over a vector or a list is structural recursion, and the loop over the
-- rows of the list control counts down the rows that are left, of which GetItemCount gives the number,
-- so no loop runs out of fuel. The two endless loops of the threads are taken one turn or one call at a
-- time: the server's in any order a schedule gives, the client's for a number of turns. ClientNum wraps at 2^32,
-- %d, %ld, _ttoi and _tcstoul have 32 bits, and htons takes 16 bits.
--
-- Not modelled. In Server/System turns of threads and handlers are not cut into smaller steps;
-- Server/Threads/Steps, Server/Calls and Server/Process cut those of SelectFunc and of ClientFunc
-- between their calls. A handler of the server's dialog is not cut, and data races inside one call are
-- outside the model. So a statement over the schedules of Server/System is one about runs in which no
-- turn is interrupted; Server/Process has those in which turns are. The exception of std::thread's
-- constructor, where the system has no thread left, is left out, and ClientNum is handed to InsertItem as
-- it is, which differs from the int that the code passes only from 2^31 clients on. The messages that Windows sends while a set-up call runs are not followed.
-- The calls that build and paint the controls are values of the history and have no effect of
-- their own but on the list control and the enabled buttons. The resource scripts, the build
-- settings and the vendored headers of the MySQL client library are left out, since the program
-- only uses them. Negative time-outs of Select are left out, since all callers pass 100.
pub mod Base
pub mod Text
pub mod Platform
pub mod Startup
pub mod ClientItem
pub mod Server
pub mod Client
pub mod Database
pub mod Login
pub mod Chat
