-- ===== src/I18n/ZhConsole.antt =====
-- The Chinese messages, web/src/lib/i18n/messages/zh-CN.ts, the other sections.
use uni_llm.I18n.Shape.{
  AdminMessages, DocsMessages, LogsMessages, PlaygroundMessages, StatusMessages,
}

abbrev pub zh_playground : PlaygroundMessages
zh_playground = record {
  title = "对话试用";
  api_key = "API Key";
  api_key_placeholder = "粘贴你的 API Key（sk-...）";
  model = "模型";
  clear = "清空";
  system_prompt = "系统提示词";
  system_prompt_placeholder = "系统提示词...";
  empty_hint = "发送一条消息开始对话";
  role_you = "你";
  role_assistant = "助手";
  thinking = "思考中...";
  message_placeholder = "输入消息...";
  need_api_key = "请先填写 API Key";
  send = "发送";
  empty_response = "（空响应）";
  request_failed = "请求失败";
  default_system_prompt = "你是一个有帮助的助手。";
  error_prefix = "错误：";
}

abbrev pub zh_docs : DocsMessages
zh_docs = record {
  title = "API 文档";
  sdk_intro = "UniLLM 兼容任意 OpenAI SDK 或 HTTP 客户端。请在下方选择你使用的语言。";
  sections = record {
    quickstart = "快速开始";
    auth = "身份认证";
    chat = "对话补全";
    models = "模型列表";
    streaming = "流式输出";
    sdks = "SDK 示例";
    functions = "函数调用";
    errors = "错误码";
    ratelimits = "速率限制";
    pricing = "定价";
  };
  sdk_examples = "SDK 示例";
  copy = "复制";
  copied = "已复制！";
}

abbrev pub zh_admin : AdminMessages
zh_admin = record {
  badge = "管理后台";
  loading = "正在加载管理面板...";
  tabs = record { overview = "概览"; users = "用户"; providers = "上游"; models = "模型"; keys = "上游 Key" };
  stats = record {
    total_users = "用户总数";
    total_requests = "请求总数";
    total_cost = "总费用";
    total_tokens = "总 Token";
    active_keys = "活跃 Key";
  };
  user_management = "用户管理";
  user_id = "用户 ID";
  amount = "金额（$）";
  reason = "原因";
  add_balance = "充值";
  col_id = "ID";
  col_email = "邮箱";
  col_name = "姓名";
  col_role = "角色";
  col_balance = "余额";
  col_joined = "注册时间";
  providers_title = "上游 Provider";
  col_base_url = "Base URL";
  models_title = "模型配置";
  col_public_name = "对外名称";
  col_upstream = "上游模型";
  col_max_tokens = "最大 Token";
  keys_title = "上游 API Key";
  provider_id = "Provider ID";
  select_provider = "选择...";
  api_key = "API Key";
  rpm = "RPM";
  add_key = "添加 Key";
  col_provider = "Provider";
  col_key_prefix = "Key 前缀";
  no_provider_keys = "未配置上游 Key";
}

abbrev pub zh_status : StatusMessages
zh_status = record {
  title = "UniLLM 状态";
  subtitle = "上游服务实时健康监控";
  fetch_error = "获取状态失败";
  last_updated = "最后更新";
  auto_refresh = "每 30 秒自动刷新";
  overall = "整体状态";
  providers = "上游服务";
  latency = "延迟";
  circuit = "熔断";
  no_data = "暂无上游数据";
  operational = "所有系统运行正常";
  degraded = "部分系统异常";
  circuit_label = "熔断";
}

abbrev pub zh_logs : LogsMessages
zh_logs = record {
  no_requests = "暂无请求";
  col_time = "时间";
  col_model = "模型";
  col_tokens = "Token";
  col_cost = "费用";
  col_latency = "延迟";
  col_status = "状态";
}
